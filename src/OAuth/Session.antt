-- ===== src/OAuth/Session.antt =====
-- pkg/oauth/manager.go: what becomes of a session.
use quota_lane.Prelude.{
  String, Bytes, ◌≡◌, refl, ap, subst, Option, none, [], ◌∷◌, arith, inl, inr, Option-cases,
}
use quota_lane.Prelude.Effect.{ok, err, message, wrapped, wrap, ignore, attempt, Result-cases}
use quota_lane.Cache.{Codec}
use quota_lane.Redis
use quota_lane.Redis.{Redis, View, Value, text, oauth_session}
use quota_lane.OAuth.{
  OAuthSession, ExtendedTokenResponse, Registry, get_provider, load_session, delete_session,
  exchange_code,
}

module _ {S : Type 0} (providers : Registry S) (rdb : Redis S) (codec : Codec OAuthSession)
    (v : View S) (law : Redis.IsLawful rdb v) where
  answered :
      (id : String) (s : S) (reply : Option Value)
      → (rdb.get (oauth_session id) s).0 ≡ ok reply
      → rdb.get (oauth_session id) s ≡ (ok reply, (rdb.get (oauth_session id) s).1)
  answered id s reply q i = (q i, (rdb.get (oauth_session id) s).1)

  gone_is_error :
      (id : String) (code : Bytes) (s : S) (reply : Option Value)
      → v.stored s (oauth_session id) ≡ none
      → (rdb.get (oauth_session id) s).0 ≡ ok reply
      → (exchange_code providers rdb codec id code s).0
        ≡ err (wrapped "failed to load session" (message "session not found or expired: %s"))
  unfolding exchange_code load_session wrap
  gone_is_error id code s reply gone q =
      rw
        (
          answered id s reply q,
          law.get_ok (oauth_session id) s (rdb.get (oauth_session id) s).1 reply
              (answered id s reply q),
          gone,
        )
        refl

  -- The session is gone after an exchange that succeeded.
  exchange_code-gone :
      (id : String) (code : Bytes) (token : ExtendedTokenResponse) (s s' : S)
      → ((u : S)
          → rdb.del (oauth_session id ∷ []) u ≡ (ok tt, (rdb.del (oauth_session id ∷ []) u).1))
      → exchange_code providers rdb codec id code s ≡ (ok token, s')
      → v.stored s' (oauth_session id) ≡ none
  unfolding exchange_code delete_session wrap ignore attempt
  exchange_code-gone id code token s s' up h =
      elim (Result-cases (load_session providers rdb codec id s)) [
        | inr (inl (g, e)) ↦ absurd (ground (arith, e))
        | inr (inr e) ↦ absurd (ground (arith, e))
        | inl (session, e) ↦ elim (Option-cases (get_provider providers session.provider)) [
          | inl n ↦ absurd (ground (arith, e, n))
          | inr (p, n) ↦
              elim (Result-cases
                (p.exchange_code code session (load_session providers rdb codec id s).1)) [
                  | inr (inl (g, f)) ↦ absurd (ground (arith, e, n, f))
                  | inr (inr f) ↦ absurd (ground (arith, e, n, f))
                  | inl (t, f) ↦
                      let u =
                        (p.exchange_code code session
                          (load_session providers rdb codec id s).1).1 in
                      subst (λ w. v.stored w (oauth_session id) ≡ none)
                        (ap (λ r. r.1) (rw (e, n, f, up u) at h))
                        (law.del_ok (oauth_session id ∷ []) u _ (up u)).0
                ]
        ]
      ]

  -- A session is used once: after an exchange that succeeded, where Redis answers the deletion and the
  -- next read, a second exchange with the same session id is refused, whatever its code is.
  pub exchange_code_once :
      (id : String) (code again : Bytes) (token : ExtendedTokenResponse) (s s' : S)
      (reply : Option Value)
      → ((u : S)
          → rdb.del (oauth_session id ∷ []) u ≡ (ok tt, (rdb.del (oauth_session id ∷ []) u).1))
      → exchange_code providers rdb codec id code s ≡ (ok token, s')
      → (rdb.get (oauth_session id) s').0 ≡ ok reply
      → (exchange_code providers rdb codec id again s').0
        ≡ err (wrapped "failed to load session" (message "session not found or expired: %s"))
  exchange_code_once id code again token s s' reply up h q =
      gone_is_error id again s' reply (exchange_code-gone id code token s s' up h) q
