-- ===== src/Examples/Protocol.antt =====
-- The theorems on the protocol and the texts at concrete inputs.
use velox_db.Prelude.{◌<◌, Bytes, codes, List, [], ◌∷◌, ◌++◌, take, length, ◌≡◌, arith}
use velox_db.Util.Decimal.{to_string}
use velox_db.Config.Types.{default_protocol}
use velox_db.Resp.Types.{ParserOptions, ok, need_more}
use velox_db.Resp.Encode.{encode_command, array_header, bulk, bulks}
use velox_db.Resp.Parser.State.{next_command, parser_options_from_config}
use velox_db.Resp.Parser.RoundTrip.{Fits, next_command-encode_command}
use velox_db.Resp.Parser.Prefix.{next_command-take}

abbrev pub limits : ParserOptions
limits = parser_options_from_config default_protocol

abbrev pub get_k : List Bytes
get_k = codes "GET" ∷ codes "k" ∷ []

abbrev pub set_k : List Bytes
set_k = codes "SET" ∷ codes "k" ∷ codes "41" ∷ []

pub get_k-Fits : Fits limits get_k
get_k-Fits = record {
  arguments = ((omega arith, omega arith), ((omega arith, omega arith), tt));
  count = omega arith;
  countable = omega arith;
  request = unfold encode_command array_header bulk bulks to_string in omega arith;
}

pub set_k-Fits : Fits limits set_k
set_k-Fits = record {
  arguments =
      ((omega arith, omega arith), ((omega arith, omega arith), ((omega arith, omega arith), tt)));
  count = omega arith;
  countable = omega arith;
  request = unfold encode_command array_header bulk bulks to_string in omega arith;
}

pub get_k_short : 9 < length (encode_command get_k)
get_k_short = unfold encode_command array_header bulk bulks to_string in omega arith

next_command-encode_command_example :
    next_command (record { options = limits; buffer = encode_command get_k ++ codes "*1" }) ≡ (
      ok (record { args = get_k; raw = encode_command get_k }),
      record { options = limits; buffer = codes "*1" },
    )
next_command-encode_command_example =
    next_command-encode_command limits get_k (codes "*1") get_k-Fits

next_command-take_example :
    next_command (record { options = limits; buffer = take 9 (encode_command get_k) })
    ≡ (need_more, record { options = limits; buffer = take 9 (encode_command get_k) })
next_command-take_example = next_command-take limits 9 get_k get_k-Fits get_k_short
