-- ===== src/Rollout/Webhook.antt =====
-- The webhooks of pkg/controller/common/rollout/rollout_webhook.go. The body of an answer, which no
-- caller reads, is left out.
pub mod Answers
use rudr_x.Base.{
  Bool, List, Option, String, [], false, if◌then◌else◌, none, not, some, str_eq, suc, zero, ℕ, ◌||◌,
  ◌∷◌,
}
use rudr_x.Base.Int.{leb_ℤ, ltb_ℤ, pos, ℤ, ◌==ℤ◌}
use rudr_x.Base.Text.{decimal, ◌+++◌}
use rudr_x.Rollout.Action.{Result, err, ok, status}
use rudr_x.Rollout.Status.Graph.{fail}
use rudr_x.Rollout.Types.{RolloutWebhook}

pub record Payload : Type 0 where
  pub name : String
  pub namespace : String
  pub phase : String
  pub metadata : List (String × String)

-- What the code takes from net/http and client-go: an error in building a request, one exchange with the
-- endpoint, which gives a status code or an error, and the retries of `retry.DefaultBackoff` after a
-- first try.
pub record Http (W : Type 0) : Type 0 where
  pub request_error : String → String → Payload → Option String
  pub send : String → String → Payload → W → Result ℤ × W
  pub retries : ℕ

-- A try of `makeHTTPRequest`: a server error is an error.
unfoldable pub tried : Result ℤ → Result ℤ
tried (err e) = err e
tried (ok code) =
    if leb_ℤ (pos 500) code
    then err ("internal server error, status code = " +++ decimal code)
    else ok code

-- `retry.OnError`, which tries again after every error.
unfoldable pub tries : {W : Type 0} → Http W → String → String → Payload → ℕ → W → Result ℤ × W
unfolding tried
tries http url method payload zero w =
    let (answer, w') = http.send url method payload w in (tried answer, w')
tries http url method payload (suc n) w =
    let again = tries http url method payload n (http.send url method payload w).1 in
    elim (tried (http.send url method payload w).0) [
      | ok code ↦ (ok code, (http.send url method payload w).1)
      | err e ↦ again
    ]

-- What follows the building of a request.
unfoldable pub requested :
    {W : Type 0} → Http W → String → String → Payload → Option String → W → Result ℤ × W
unfolding tries
requested http url method payload (some e) w = (err e, w)
requested http url method payload none w = tries http url method payload http.retries w

-- `makeHTTPRequest`: the status code or the error.
unfoldable pub make_http_request :
    {W : Type 0} → Http W → String → String → Payload → W → Result ℤ × W
unfolding requested
make_http_request http url method payload w =
    requested http url method payload (http.request_error url method payload) w

-- The loop over the expected codes.
unfoldable pub accepted : ℤ → List ℤ → Bool
accepted code [] = false
accepted code (es ∷ rest) = es ==ℤ code || accepted code rest

-- What `callWebhook` makes of the answer.
unfoldable pub judge : List ℤ → Result ℤ → Option String
unfolding accepted
judge expected (err e) = some e
judge [] (ok code) =
    if ltb_ℤ (pos 202) code
    then some ("we fail the webhook request based on status, http status = " +++ decimal code)
    else none
judge (es ∷ rest) (ok code) =
    if accepted code (es ∷ rest)
    then none
    else some ("http request to the webhook not accepeted, http status = " +++ decimal code)

unfoldable pub method_or_post : String → String
method_or_post m = if str_eq m "" then "POST" else m

unfoldable pub metadata_or_empty : Option (List (String × String)) → List (String × String)
metadata_or_empty none = []
metadata_or_empty (some m) = m

-- The resource that owns the rollout.
pub record Parent : Type 0 where
  pub name : String
  pub namespace : String

-- `callWebhook`.
unfoldable pub call_webhook :
    {W : Type 0} → Http W → Parent → String → RolloutWebhook → W → Option String × W
unfolding judge method_or_post metadata_or_empty make_http_request
call_webhook http parent phase hook w =
    let payload : Payload = record {
      name = parent.name;
      namespace = parent.namespace;
      phase = phase;
      metadata = metadata_or_empty hook.metadata;
    } in
    let (answer, w') = make_http_request http hook.url (method_or_post hook.method) payload w in
    (judge hook.expected_status answer, w')
