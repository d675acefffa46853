-- ===== src/Examples/Texts.antt =====
-- Tests of src/command.rs, src/did.rs and src/time.rs.
use pq_ucan.Base.{
  ℕ, ◌≡◌, ◌↔◌, refl, ◌++◌, List, [], ◌∷◌, some, pos, Bool, true, false, any, codes, ok, Text, arith,
}
use pq_ucan.Command
use pq_ucan.Command.{Command, covers, segments}
use pq_ucan.Command.Laws.{IsCommand, parse-IsCommand, show, parse-show, covers_iff}
use pq_ucan.Did
use pq_ucan.Did.Accepted.{parse_iff}
use pq_ucan.Did.Grammar.{Grammar, IsId}
use pq_ucan.Did.Laws.{IsDid, parse-IsDid}
use pq_ucan.Base.{utf8}
use pq_ucan.Time.{at, IsTimestamp}
use pq_ucan.Time.Window.{check_window, check_window_iff, NotBefore, NotPast}

-- The test for upper case letters.
abbrev is_upper : ℕ → Bool
is_upper c = false

msg_parses : Command.parse is_upper (codes "/msg") ≡ ok (codes "/msg")
unfolding Command.parse
msg_parses = refl

send_parses : Command.parse is_upper (codes "/msg/send") ≡ ok (codes "/msg/send")
unfolding Command.parse
send_parses = refl

all_parses : Command.parse is_upper (codes "/") ≡ ok (codes "/")
unfolding Command.parse
all_parses = refl

parse-IsCommand_example :
    (codes "/msg/send" ≡ codes "/msg/send")
    × (any is_upper (codes "/msg/send") ≡ false)
    × IsCommand (codes "/msg/send")
parse-IsCommand_example =
    parse-IsCommand is_upper (codes "/msg/send") (codes "/msg/send") send_parses

abbrev msg_send : List Text
msg_send = codes "msg" ∷ codes "send" ∷ []

parse-show_example :
    (Command.parse is_upper (show msg_send) ≡ ok (show msg_send))
    × (segments (show msg_send) ≡ msg_send)
parse-show_example = parse-show is_upper msg_send (ground arith) refl

covers_iff_example :
    (covers (codes "/msg") (codes "/msg/send") ≡ true)
    ↔ ((more : List Text) × (segments (codes "/msg/send") ≡ segments (codes "/msg") ++ more))
covers_iff_example =
    covers_iff (codes "/msg") (codes "/msg/send")
      (parse-IsCommand is_upper (codes "/msg") (codes "/msg") msg_parses).2
      (parse-IsCommand is_upper (codes "/msg/send") (codes "/msg/send") send_parses).2

covers_msg : covers (codes "/msg") (codes "/msg/send") ≡ true
unfolding covers
covers_msg = refl

key_parses : Did.parse (codes "did:key:z6Mk#k") ≡ ok (codes "did:key:z6Mk#k")
unfolding Did.parse utf8
key_parses = refl

parse-IsDid_example :
    (codes "did:key:z6Mk#k" ≡ codes "did:key:z6Mk#k") × IsDid (codes "did:key:z6Mk#k")
parse-IsDid_example = parse-IsDid (codes "did:key:z6Mk#k") (codes "did:key:z6Mk#k") key_parses

abbrev with_escape : Text
with_escape = codes "did:web:a%3A1#k"

web-Grammar : Grammar with_escape
web-Grammar = record {
  name = codes "web";
  id = codes "a%3A1";
  suffix = codes "#k";
  has_name = λ e. cc;
  name_chars = ground arith;
  is_id =
      IsId.char b'a' (ground arith)
        (IsId.escape b'3' b'A' (ground arith) (ground arith) (IsId.last_char b'1' (ground arith)));
  is_suffix = ground arith;
  written = refl;
}

parse_iff_example :
    (Did.parse with_escape ≡ ok with_escape) ↔ ((with_escape ≡ with_escape) × Grammar with_escape)
parse_iff_example = parse_iff with_escape with_escape

web_parses : Did.parse with_escape ≡ ok with_escape
web_parses = parse_iff_example.1 (refl, web-Grammar)

in_range_100 : IsTimestamp (pos 100)
in_range_100 = (omega arith, omega arith)

in_range_200 : IsTimestamp (pos 200)
in_range_200 = (omega arith, omega arith)

in_range_230 : IsTimestamp (pos 230)
in_range_230 = (omega arith, omega arith)

check_window_iff_example :
    (check_window (some (pos 100)) (at (pos 200)) (pos 230) 60 ≡ ok tt)
    ↔ (NotBefore (some (pos 100)) (pos 230) 60 × NotPast (at (pos 200)) (pos 230) 60)
check_window_iff_example =
    check_window_iff (some (pos 100)) (at (pos 200)) (pos 230) 60 (in_range_100, in_range_200)
      in_range_230
