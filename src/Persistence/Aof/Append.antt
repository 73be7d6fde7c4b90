-- ===== src/Persistence/Aof/Append.antt =====
-- What an append to the append-only file leaves in it, whatever the operating system answers.
use velox_db.Prelude.{
  ◌<◌, ◌^◌, length-append, ℕ, zero, suc, ◌+◌, Bytes, List, [], ◌∷◌, ◌++◌, Option, true, length,
  take, drop, Bool-cases, inl, inr, ◌≡◌, refl, sym, ap, ◌∙◌, arith,
}
use velox_db.Util.Status.{Status, is_ok}
use velox_db.Storage.Time.{add_size}
use velox_db.Resp.Encode.{encode_command}
use velox_db.Persistence.Aof.{
  Io, WriteOutcome, wrote, interrupted, write_error, write_all, Aof, enabled, write_bytes_locked,
  recorded, after_sync, append,
}

-- What a sequence of writes puts into the file is the front of the bytes, of some length.
record Front (done bytes : Bytes) : Type 0 where
  size : ℕ
  front : done ≡ take size bytes

take-all : (s : Bytes) → take (length s) s ≡ s
take-all [] = refl
take-all (c ∷ s) = ap (λ t. c ∷ t) (take-all s)

take-split : (n m : ℕ) (s : Bytes) → take n s ++ take m (drop n s) ≡ take (n + m) s
take-split zero m s = ap (λ k. take k s) (omega arith)
take-split (suc n) m [] = take_nil m ∙ sym (take_nil (suc n + m))
  where
    take_nil : (k : ℕ) → take {A = ℕ} k [] ≡ []
    take_nil zero = refl
    take_nil (suc k) = refl
take-split (suc n) m (c ∷ s) =
    let e : suc (n + m) ≡ suc n + m = omega arith in
    ap (λ t. c ∷ t) (take-split n m s) ∙ ap (λ k. take k (c ∷ s)) e

write_all-Front : (ws : List WriteOutcome) (bytes : Bytes) → Front (write_all ws bytes).1 bytes
unfolding write_all
write_all-Front ws [] = record { size = 0; front = refl }
write_all-Front [] (b ∷ bs) = record {
  size = suc (length bs);
  front = ap (λ t. b ∷ t) (sym (take-all bs));
}
write_all-Front (interrupted ∷ ws) (b ∷ bs) = write_all-Front ws (b ∷ bs)
write_all-Front (write_error m ∷ ws) (b ∷ bs) = record { size = 0; front = refl }
write_all-Front (wrote zero ∷ ws) (b ∷ bs) = record { size = 0; front = refl }
write_all-Front (wrote (suc n) ∷ ws) (b ∷ bs) =
    let w = write_all-Front ws (drop n bs) in
    record {
      size = suc (n + w.size);
      front = ap (λ t. b ∷ t) (ap (λ t. take n bs ++ t) w.front ∙ take-split n w.size bs);
    }

take-drop : (n : ℕ) (s : Bytes) → take n s ++ drop n s ≡ s
take-drop zero s = refl
take-drop (suc n) [] = refl
take-drop (suc n) (c ∷ s) = ap (λ t. c ∷ t) (take-drop n s)

pub write_all-whole :
    (ws : List WriteOutcome) (bytes : Bytes)
    → is_ok (write_all ws bytes).0 ≡ true
    → (write_all ws bytes).1 ≡ bytes
unfolding write_all
write_all-whole ws [] h = refl
write_all-whole [] (b ∷ bs) h = refl
write_all-whole (interrupted ∷ ws) (b ∷ bs) h = write_all-whole ws (b ∷ bs) h
write_all-whole (write_error m ∷ ws) (b ∷ bs) h = cc h
write_all-whole (wrote zero ∷ ws) (b ∷ bs) h = cc h
write_all-whole (wrote (suc n) ∷ ws) (b ∷ bs) h =
    ap (λ t. b ∷ t) (ap (λ t. take n bs ++ t) (write_all-whole ws (drop n bs) h) ∙ take-drop n bs)

recorded-status : (s : Status) (aof : Aof) → is_ok (recorded s aof).0 ≡ is_ok s
recorded-status s aof = elim (Bool-cases (is_ok s)) [ inl e ↦ rw e refl | inr e ↦ rw e (e) ]

recorded-file : (s : Status) (aof : Aof) → (recorded s aof).1.file ≡ aof.file
recorded-file s aof = elim (Bool-cases (is_ok s)) [ inl e ↦ rw e refl | inr e ↦ rw e refl ]

recorded-current_size :
    (s : Status) (aof : Aof) → (recorded s aof).1.current_size ≡ aof.current_size
recorded-current_size s aof = elim (Bool-cases (is_ok s)) [ inl e ↦ rw e refl | inr e ↦ rw e refl ]

-- The status of an append is that of its writes, unless `fsync` fails behind them.
after_sync-ok :
    (a : Aof) (e : Option Bytes) (s : Status)
    → is_ok (after_sync a.policy e s) ≡ true
    → is_ok s ≡ true
after_sync-ok a e s h = elim (Bool-cases (is_ok s)) [ inl y ↦ y | inr n ↦ rw n at h ]

module _ (io : Io) (aof : Aof) (args : List Bytes) (opened : enabled aof ≡ true) where
  is_open : aof.is_open ≡ true
  is_open = ground arith

  write_bytes_locked-file :
      (bytes : Bytes)
      → (write_bytes_locked io.writes aof bytes).1.file ≡ aof.file ++ (write_all io.writes bytes).1
  unfolding write_bytes_locked
  write_bytes_locked-file bytes = rw is_open refl

  write_bytes_locked-status :
      (bytes : Bytes) → (write_bytes_locked io.writes aof bytes).0 ≡ (write_all io.writes bytes).0
  unfolding write_bytes_locked
  write_bytes_locked-status bytes = rw is_open refl

  final_status : Status
  final_status = after_sync aof.policy io.fsync_error (write_all io.writes (encode_command args)).0

  held_file : Aof
  held_file = (write_bytes_locked io.writes aof (encode_command args)).1

  append-opened : append io aof args ≡ recorded final_status held_file
  unfolding append final_status held_file
  append-opened = rw (opened, write_bytes_locked-status (encode_command args)) refl

  appended-file :
      (append io aof args).1.file ≡ aof.file ++ (write_all io.writes (encode_command args)).1
  appended-file =
      ap (λ r. r.1.file) append-opened
      ∙ recorded-file final_status held_file
      ∙ (unfold held_file in write_bytes_locked-file (encode_command args))

  -- Whatever the operating system answers, an append to an open file leaves what the file held and
  -- adds a front of the encoded command, of some length.
  pub append-Front :
      (n : ℕ) × ((append io aof args).1.file ≡ aof.file ++ take n (encode_command args))
  append-Front =
      let w = write_all-Front io.writes (encode_command args) in
      (w.size, appended-file ∙ ap (λ t. aof.file ++ t) w.front)

  appended-whole :
      is_ok (append io aof args).0 ≡ true
      → is_ok (write_all io.writes (encode_command args)).0 ≡ true
  appended-whole h =
      let final : is_ok final_status ≡ true =
        sym (recorded-status final_status held_file)
        ∙ sym (ap (λ r. is_ok r.0) append-opened)
        ∙ h in
      after_sync-ok aof io.fsync_error (write_all io.writes (encode_command args)).0
        (unfold final_status in final)

  -- An append that succeeds on an open file has put exactly the encoded command behind what the
  -- file held, whatever short writes, interruptions and answers of fsync it met.
  pub append-file :
      is_ok (append io aof args).0 ≡ true
      → (append io aof args).1.file ≡ aof.file ++ encode_command args
  append-file h =
      appended-file
      ∙ ap (λ t. aof.file ++ t) (write_all-whole io.writes (encode_command args) (appended-whole h))

  write_bytes_locked-current_size :
      (bytes : Bytes)
      → is_ok (write_all io.writes bytes).0 ≡ true
      → (write_bytes_locked io.writes aof bytes).1.current_size
        ≡ add_size aof.current_size (length bytes)
  unfolding write_bytes_locked
  write_bytes_locked-current_size bytes h = rw (is_open, h) refl

  -- The counter of the size stays the length of the file, as long as every append succeeds.
  pub append-current_size :
      is_ok (append io aof args).0 ≡ true
      → aof.current_size ≡ length aof.file
      → length aof.file + length (encode_command args) < 2 ^ 64
      → (append io aof args).1.current_size ≡ length (append io aof args).1.file
  append-current_size h sized room =
      let counter : (append io aof args).1.current_size
          ≡ add_size aof.current_size (length (encode_command args)) =
        ap (λ r. r.1.current_size) append-opened
        ∙ recorded-current_size final_status held_file
        ∙ (unfold held_file in
            write_bytes_locked-current_size (encode_command args) (appended-whole h)) in
      let file = ap length (append-file h) in
      let both = length-append aof.file (encode_command args) in
      let sum : add_size aof.current_size (length (encode_command args))
          ≡ length aof.file + length (encode_command args) =
        unfold add_size in ground arith in
      omega arith
