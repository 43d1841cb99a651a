-- ===== src/Oauth/Authorize/Code.antt =====
-- A code that the endpoint issues, presented to the token endpoint.
-- About src/oauth/authorize.ts.
use keyforge.Prelude.{
  ℕ, ◌+◌, ◌*◌, ◌≤◌, String, ◌≡◌, refl, sym, ap, ◌∙◌, ◌↔◌, false, some, arith, string_eq, option_eq,
  nat_eq, beq_refl,
}
use keyforge.Env.TokenTtl
use keyforge.Security.Crypto.{IsEncoding, hash_opaque_token}
use keyforge.Do.OneTime
use keyforge.Do.OneTime.{Storage, is_over}
use keyforge.Do.AuthorizationCode.{Payload, Input, found, consume_if}
use keyforge.Do.AuthorizationCode.Consume.{IsLive, IsEntitled, consume_if-found_iff}
use keyforge.Oauth.Authorize.{
  Reads, AuthorizeParams, AuthorizationSubject, payload_for, issue_authorization_code,
}

module _ (q : Reads) (params : AuthorizeParams) (subject : AuthorizationSubject) (code : String)
    (now : ℕ) (codes : String → Storage Payload) where
  abbrev pub issued_storage : Storage Payload
  issued_storage =
      issue_authorization_code q params subject code now codes (hash_opaque_token q.platform code)

  stored : issued_storage ≡ record {
    consumed = some false;
    expires_at = some (now + TokenTtl.authorization_code * 1000);
    value = some (payload_for q params subject);
    alarm_at = some (now + TokenTtl.authorization_code * 1000 + 60000);
  }
  unfolding issue_authorization_code OneTime.store
  stored = rw (beq_refl (hash_opaque_token q.platform code)) refl

  stored-IsLive :
      (later : ℕ) (value : Payload)
      → IsLive issued_storage later value ↔ (
          (value ≡ payload_for q params subject) × later ≤ now + TokenTtl.authorization_code * 1000)
  stored-IsLive later value =
      let expiry : issued_storage.expires_at ≡ some (now + 60000) = ap (λ s. s.expires_at) stored in
      let payload : issued_storage.value ≡ some (payload_for q params subject) =
        ap (λ s. s.value) stored in
      (
        λ live.
            (let over : is_over (some (now + 60000)) later ≡ false =
                ap (λ e. is_over e later) (sym expiry) ∙ live.in_time in
              (cc (payload, live.stored), ground (arith, over))),
        λ h. record {
          fresh = ap (λ s. s.consumed) stored;
          in_time = ap (λ e. is_over e later) expiry ∙ ground (arith, h.1);
          stored = payload ∙ ap some (sym h.0);
        },
      )

  -- An issued code is handed out exactly as the payload of its authorization, up to its expiry, to a
  -- presentation that is entitled to it. The encoding of texts is assumed to be faithful.
  pub issue_authorization_code-consume_if :
      (input : Input) (later : ℕ) (value : Payload)
      → IsEncoding q.platform
      → ((consume_if q.platform q.env input later issued_storage).0 ≡ found value) ↔ (
          (value ≡ payload_for q params subject)
          × later ≤ now + TokenTtl.authorization_code * 1000
          × IsEntitled q.platform q.env value input)
  issue_authorization_code-consume_if input later value encoding =
      let (to, from) =
        consume_if-found_iff q.platform q.env input later issued_storage value encoding in
      let (live, back) = stored-IsLive later value in
      (λ h. (let (l, e) = to h in ((live l).0, (live l).1, e)), λ h. from (back (h.0, h.1), h.2))
