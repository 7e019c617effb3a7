-- ===== src/Rollout/Webhook/Answers.antt =====
-- Which answers make a webhook succeed.
use rudr_x.Base.{Option, String, ap, arith, none, refl, some, suc, zero, ℕ, ◌∙◌, ◌≡◌}
use rudr_x.Base.Int.{pos, ℤ, ◌≤ℤ◌}
use rudr_x.Base.Text.{decimal, ◌+++◌}
use rudr_x.Rollout.Action.{Result, err, ok}
use rudr_x.Rollout.Types.{RolloutWebhook}
use rudr_x.Rollout.Webhook.{
  Http, Parent, Payload, call_webhook, judge, make_http_request, metadata_or_empty, method_or_post,
  requested, tried, tries,
}

-- The endpoint only answers with errors and server errors.
abbrev pub Fails : {W : Type 0} → Http W → String → String → Payload → Type 0
Fails {W = W} http url method payload =
    (w : W) (code : ℤ) → (http.send url method payload w).0 ≡ ok code → pos 500 ≤ℤ code

module _ {W : Type 0} (http : Http W) (parent : Parent) (phase : String)
    (hook : RolloutWebhook) where
  -- The payload that `callWebhook` sends.
  abbrev pub sent : Payload
  sent = record {
    name = parent.name;
    namespace = parent.namespace;
    phase = phase;
    metadata = metadata_or_empty hook.metadata;
  }

  tried-error :
      (a : Result ℤ)
      → ((code : ℤ) → a ≡ ok code → pos 500 ≤ℤ code)
      → (m : String) × (tried a ≡ err m)
  unfolding tried
  tried-error (err e) h = (e, refl)
  tried-error (ok code) h =
      ("internal server error, status code = " +++ decimal code, ground (arith, h code refl))

  tries_again :
      (n : ℕ) (w : W) {m : String}
      → tried (http.send hook.url (method_or_post hook.method) sent w).0 ≡ err m
      → tries http hook.url (method_or_post hook.method) sent (suc n) w
        ≡ tries http hook.url
            (method_or_post hook.method)
            sent
            n
            (http.send hook.url (method_or_post hook.method) sent w).1
  unfolding tries
  tries_again n w e = rw (e, tries) refl

  tries-Fails :
      (n : ℕ) (w : W)
      → Fails http hook.url (method_or_post hook.method) sent
      → (m : String) × ((tries http hook.url (method_or_post hook.method) sent n w).0 ≡ err m)
  unfolding tries
  tries-Fails zero w h = tried-error _ (h w)
  tries-Fails (suc n) w h =
      let (m, e) = tried-error (http.send hook.url (method_or_post hook.method) sent w).0 (h w) in
      let (m', e') = tries-Fails n (http.send hook.url (method_or_post hook.method) sent w).1 h in
      (m', ap (λ o. o.0) (tries_again n w e) ∙ e')

  judged : (a : Result ℤ × W) {m : String} → a.0 ≡ err m → judge hook.expected_status a.0 ≡ some m
  unfolding judge
  judged (err e, w) h = cc
  judged (ok code, w) h = cc

  request-Fails :
      (o : Option String) (w : W)
      → Fails http hook.url (method_or_post hook.method) sent
      → (m : String) × ((requested http hook.url (method_or_post hook.method) sent o w).0 ≡ err m)
  unfolding requested
  request-Fails (some e) w h = (e, refl)
  request-Fails none w h = tries-Fails http.retries w h

  -- A webhook whose endpoint only fails or answers with server errors, the codes from 500 on, fails
  -- after all the retries, even where such a code is among those that the webhook expects.
  pub call_webhook-Fails :
      (w : W)
      → Fails http hook.url (method_or_post hook.method) sent
      → (m : String) × ((call_webhook http parent phase hook w).0 ≡ some m)
  unfolding call_webhook make_http_request
  call_webhook-Fails w h =
      let (m, e) =
        request-Fails (http.request_error hook.url (method_or_post hook.method) sent) w h in
      (m, judged (make_http_request http hook.url (method_or_post hook.method) sent w) e)
