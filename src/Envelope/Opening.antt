-- ===== src/Envelope/Opening.antt =====
-- src/services/ChairDispatchSecurity.ts: what is sealed is opened, while it is fresh.
use kovael.Common.{
  ℕ, ◌≡◌, refl, String, true, false, ◌&&◌, Option, some, ltb, str_eq, Bool-cases, Option-cases, inl,
  inr, if◌then◌else◌, is_some,
}
use kovael.Envelope.{
  Cipher, object, ok, err, stale_envelope, current_secret, aad_for, age_of, as_envelope, seal_body,
  secure_chair_dispatch_body, open_chair_dispatch_body, open_sealed, decipher, read_payload,
  max_clock_skew_ms,
}

-- What Node's ciphers and JSON do: a text that was sealed is opened with the same key, data and tag;
-- only the empty text is sealed as an empty one, and no tag is empty; a tag that was made is taken; and the text of an
-- object is not empty and is read again.
pub record IsCipher {P : Type 0} (c : Cipher P) : Type 0 where
  pub opens :
      (key iv aad text : String)
      → c.decrypt key iv aad (c.encrypt key iv aad text) (c.tag_of key iv aad text) ≡ some text
  pub fills :
      (key iv aad text : String)
      → str_eq text "" ≡ false
      → str_eq (c.encrypt key iv aad text) "" ≡ false
  pub tags : (key iv aad text : String) → str_eq (c.tag_of key iv aad text) "" ≡ false
  pub takes : (key iv aad text : String) → c.accepts_tag (c.tag_of key iv aad text) ≡ true
  pub prints : (p : P) → str_eq (c.print p) "" ≡ false
  pub reads : (p : P) → c.parse (c.print p) ≡ object p

module _ {P : Type 0} (c : Cipher P) (v : IsCipher c) where
  decipher-seal_body :
      (secret request iv : String) (p : P) (sent_at : ℕ)
      → str_eq iv "" ≡ false
      → c.accepts_iv iv ≡ true
      → decipher c secret (seal_body c secret p request sent_at iv) request sent_at ≡ ok p
  unfolding decipher seal_body read_payload
  decipher-seal_body secret request iv p sent_at n a =
      rw
        (
          n,
          a,
          v.takes (c.key_for secret) iv (aad_for request sent_at) (c.print p),
          v.tags (c.key_for secret) iv (aad_for request sent_at) (c.print p),
          v.fills (c.key_for secret) iv (aad_for request sent_at) (c.print p) (v.prints p),
          v.opens (c.key_for secret) iv (aad_for request sent_at) (c.print p),
          v.reads p,
        )
        refl

  open_sealed-seal_body :
      (secret request iv : String) (p : P) (sent_at now : ℕ)
      → str_eq request "" ≡ false
      → str_eq iv "" ≡ false
      → c.accepts_iv iv ≡ true
      → open_sealed c secret (seal_body c secret p request sent_at iv) now
        ≡ (if ltb max_clock_skew_ms (age_of now sent_at) then err stale_envelope else ok p)
  unfolding open_sealed as_envelope seal_body
  open_sealed-seal_body secret request iv p sent_at now r n a =
      elim (Bool-cases (ltb max_clock_skew_ms (age_of now sent_at))) [
        | inl e ↦ rw (r, e, open_sealed, as_envelope, seal_body) refl
        | inr e ↦
            rw (r, e, open_sealed, as_envelope, seal_body)
              (decipher-seal_body secret request iv p sent_at n a)
      ]

  -- With ciphers and JSON that read what they wrote, a nonempty identifier and a nonempty vector that
  -- the cipher takes: if the two sides have the same secret or none, a body that was secured is opened
  -- to its payload, unless a secret is set and the clocks are more than five minutes apart: then it is
  -- refused as stale.
  pub open_chair_dispatch_body-secure :
      (env : Option String) (p : P) (request iv : String) (sent_at now : ℕ)
      → str_eq request "" ≡ false
      → str_eq iv "" ≡ false
      → c.accepts_iv iv ≡ true
      → open_chair_dispatch_body c env (secure_chair_dispatch_body c env p request sent_at iv) now
        ≡ (if is_some (current_secret env) && ltb max_clock_skew_ms (age_of now sent_at)
            then err stale_envelope
            else ok p)
  unfolding open_chair_dispatch_body secure_chair_dispatch_body
  open_chair_dispatch_body-secure env p request iv sent_at now r n a =
      elim (Option-cases (current_secret env)) [
        | inl e ↦ rw (e, open_chair_dispatch_body, secure_chair_dispatch_body) (rw (e) refl)
        | inr (secret, e) ↦
            rw (e, open_chair_dispatch_body, secure_chair_dispatch_body)
              (rw (e) (open_sealed-seal_body secret request iv p sent_at now r n a))
      ]
