-- ===== src/Net/Connection/Cut.antt =====
-- A sequence of encoded commands that is cut at any byte, as reads of src/net/tcp_server.cpp cut it.
use velox_db.Prelude.{
  ◌<◌, ◌≤◌, Bytes, List, [], ◌∷◌, ◌++◌, length, take, drop, ltb, take-append, drop-append,
  take-append_le, drop-append_le, take-append-drop, ltb→lt, ltb→le, Bool-cases, inl, inr, All,
  append_assoc, ◌≡◌, refl, sym, ap, ◌∙◌, arith,
}
use velox_db.Resp.Encode.{encode_command}
use velox_db.Resp.Types.{ParserOptions}
use velox_db.Resp.Parser.State.{next_command, next_value, command_of, parse_front, taken}
use velox_db.Resp.Parser.RoundTrip.{Fits}
use velox_db.Resp.Parser.Prefix.{next_command-take}
use velox_db.Persistence.Replay.Torn.{log_of}
use velox_db.Net.Connection.Pipeline.{Waits}

-- A cut through a sequence of encoded commands: those before it, those behind, and what stands
-- between.
pub record Cut (o : ParserOptions) (cs : List (List Bytes)) (before behind : Bytes) : Type 0 where
  pub done : List (List Bytes)
  pub todo : List (List Bytes)
  pub tail : Bytes
  pub all : cs ≡ done ++ todo
  pub before_eq : before ≡ log_of done ++ tail
  pub behind_eq : tail ++ behind ≡ log_of todo
  pub waits : Waits o tail

module _ (o : ParserOptions) where
  pub Waits-nil : Waits o []
  Waits-nil = unfold next_command next_value parse_front taken command_of in refl

  within : (e y z l : Bytes) → y ++ z ≡ e ++ l → length y ≤ length e → y ≡ take (length y) e
  within e y z l h le =
      sym (take-append y z (length y) refl)
      ∙ ap (take (length y)) h
      ∙ take-append_le e l (length y) le

  beyond : (e y z l : Bytes) → y ++ z ≡ e ++ l → length e ≤ length y → y ≡ e ++ drop (length e) y
  beyond e y z l h le =
      sym (take-append-drop (length e) y)
      ∙ ap (λ t. t ++ drop (length e) y)
          (sym (take-append_le y z (length e) le)
            ∙ ap (take (length e)) h
            ∙ take-append e l (length e) refl)

  behind_beyond :
      (e y z l : Bytes) → y ++ z ≡ e ++ l → length e ≤ length y → drop (length e) y ++ z ≡ l
  behind_beyond e y z l h le =
      sym (drop-append_le y z (length e) le)
      ∙ ap (drop (length e)) h
      ∙ drop-append e l (length e) refl

  Cut-within :
      (c : List Bytes) (cs : List (List Bytes)) (y z : Bytes)
      → Fits o c
      → y ++ z ≡ log_of (c ∷ cs)
      → length y < length (encode_command c)
      → Cut o (c ∷ cs) y z
  Cut-within c cs y z fits h less =
      let prefix = within (encode_command c) y z (log_of cs) (unfold log_of in h) (omega arith) in
      record {
        done = [];
        todo = c ∷ cs;
        tail = y;
        all = refl;
        before_eq = unfold log_of in refl;
        behind_eq = h;
        waits = rw prefix (next_command-take o (length y) c fits less);
      }

  Cut-beyond :
      (c : List Bytes) (cs : List (List Bytes)) (y z : Bytes)
      → y ++ z ≡ encode_command c ++ log_of cs
      → length (encode_command c) ≤ length y
      → Cut o cs (drop (length (encode_command c)) y) z
      → Cut o (c ∷ cs) y z
  Cut-beyond c cs y z h le r = record {
    done = c ∷ r.done;
    todo = r.todo;
    tail = r.tail;
    all = ap (λ t. c ∷ t) r.all;
    before_eq =
        beyond (encode_command c) y z (log_of cs) h le
        ∙ ap (λ t. encode_command c ++ t) r.before_eq
        ∙ sym (append_assoc (encode_command c) (log_of r.done) r.tail)
        ∙ (unfold log_of in refl);
    behind_eq = r.behind_eq;
    waits = r.waits;
  }

  pub cut :
      (cs : List (List Bytes)) (y z : Bytes) → All (Fits o) cs → y ++ z ≡ log_of cs → Cut o cs y z
  cut [] [] z fits h = record {
    done = [];
    todo = [];
    tail = [];
    all = refl;
    before_eq = unfold log_of in refl;
    behind_eq = h;
    waits = Waits-nil;
  }
  cut [] (b ∷ y) z fits h = unfold log_of in absurd (cc)
  cut (c ∷ cs) y z fits h =
      let e = encode_command c in
      let h' : y ++ z ≡ e ++ log_of cs = unfold log_of in h in
      elim (Bool-cases (ltb (length y) (length e))) [
        | inl less ↦ Cut-within c cs y z fits.0 h (ltb→lt (length y) (length e) less)
        | inr more ↦
            let le : length e ≤ length y = ltb→le (length y) (length e) more in
            Cut-beyond c cs y z h' le
              (cut cs (drop (length e) y) z fits.1 (behind_beyond e y z (log_of cs) h' le))
      ]

pub All-append_left :
    {A : Type 0} (P : A → Type 0) (xs ys : List A) → All P (xs ++ ys) → All P xs × All P ys
All-append_left P [] ys h = (tt, h)
All-append_left P (x ∷ xs) ys (h, hs) =
    let both = All-append_left P xs ys hs in ((h, both.0), both.1)
