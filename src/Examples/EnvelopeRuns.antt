-- ===== src/Examples/EnvelopeRuns.antt =====
-- src/services/ChairDispatchSecurity.ts: a cipher that leaves texts as they are.
use kovael.Common.{
  ◌≡◌, refl, trim, units, trim, units, String, true, false, Option, some, str_eq, ◌+++◌,
  if◌then◌else◌, is_some, ◌&&◌, ltb,
}
use kovael.Envelope.{
  Cipher, Parsed, object, no_object, ok, err, stale_envelope, security_required, plain,
  current_secret, age_of, max_clock_skew_ms, secure_chair_dispatch_body, open_chair_dispatch_body,
  create_chair_reply_proof, verify_chair_reply_proof,
}
use kovael.Envelope.Opening.{IsCipher, open_chair_dispatch_body-secure}

data Body : Type 0 where
  hello goodbye : Body

unfoldable print_body : Body → String
print_body hello = "{hello}"
print_body goodbye = "{goodbye}"

unfoldable parse_body : String → Parsed Body
parse_body text =
    if str_eq text "{hello}"
    then object hello
    else if str_eq text "{goodbye}"
    then object goodbye
    else no_object

-- A text is sealed as itself, the empty one as the empty one.
abbrev marks : Cipher Body
marks = record {
  key_for = λ secret. secret;
  encrypt = λ key iv aad text. text;
  tag_of = λ key iv aad text. "tag";
  accepts_iv = λ iv. true;
  accepts_tag = λ tag. true;
  decrypt = λ key iv aad sealed_text tag. some sealed_text;
  print = print_body;
  parse = parse_body;
  hmac = λ key text. key +++ text;
  from_hex = λ text. text;
}

print_body-fills : (p : Body) → str_eq (print_body p) "" ≡ false
unfolding print_body
print_body-fills hello = refl
print_body-fills goodbye = refl

parse_body-print_body : (p : Body) → parse_body (print_body p) ≡ object p
unfolding parse_body print_body
parse_body-print_body hello = refl
parse_body-print_body goodbye = refl

marks-IsCipher : IsCipher marks
marks-IsCipher = record {
  opens = λ key iv aad text. refl;
  fills = λ key iv aad text full. full;
  tags = λ key iv aad text. refl;
  takes = λ key iv aad text. refl;
  prints = print_body-fills;
  reads = parse_body-print_body;
}

abbrev long_secret : Option String
long_secret = some " 0123456789abcdef0123456789abcdef "

open_chair_dispatch_body-secure_example :
    open_chair_dispatch_body marks long_secret
      (secure_chair_dispatch_body marks long_secret hello "r1" 1_000 "iv")
      400_000
    ≡ (if is_some (current_secret long_secret) && ltb max_clock_skew_ms (age_of 400_000 1_000)
        then err stale_envelope
        else ok hello)
open_chair_dispatch_body-secure_example =
    open_chair_dispatch_body-secure marks marks-IsCipher long_secret hello "r1" "iv" 1_000 400_000
      refl refl refl

-- The same envelope is opened in time and refused later.
in_time :
    open_chair_dispatch_body marks long_secret
      (secure_chair_dispatch_body marks long_secret hello "r1" 1_000 "iv")
      2_000
    ≡ ok hello
unfolding open_chair_dispatch_body secure_chair_dispatch_body trim units print_body parse_body
in_time = refl

too_late :
    open_chair_dispatch_body marks long_secret
      (secure_chair_dispatch_body marks long_secret hello "r1" 1_000 "iv")
      400_000
    ≡ err stale_envelope
unfolding open_chair_dispatch_body secure_chair_dispatch_body trim units
too_late = refl

-- With a secret, a body that is no envelope is refused; without one it passes.
plain_refused : open_chair_dispatch_body marks long_secret (plain hello) 0 ≡ err security_required
unfolding open_chair_dispatch_body trim units
plain_refused = refl

plain_passes : open_chair_dispatch_body marks (some "short") (plain hello) 0 ≡ ok hello
unfolding open_chair_dispatch_body trim units
plain_passes = refl

-- The spaces around the parts of a proof do not matter.
proof_verified :
    verify_chair_reply_proof marks " r1" "s1 " "k" (create_chair_reply_proof marks "r1" "s1" "k")
    ≡ true
unfolding verify_chair_reply_proof create_chair_reply_proof trim
proof_verified = refl
