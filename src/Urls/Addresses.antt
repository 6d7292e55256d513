-- ===== src/Urls/Addresses.antt =====
-- api/client.ts and useMetricsWS.ts: where the requests go.
use lsmkv_enterprise.Common.{
  ◌≡◌, ◌≢◌, not, refl, none, some, [], ◌∷◌, ◌++◌, Text, text, starts_with, starts_with-append,
  length, drop, Bool-cases, inl, inr,
}
use lsmkv_enterprise.Urls.{replace_prefix, api_url, Location, ws_url}

drop-append : (p s : Text) → drop (length p) (p ++ s) ≡ s
drop-append [] s = refl
drop-append (c ∷ p) s = drop-append p s

replace_prefix-append : (p by s : Text) → replace_prefix p by (p ++ s) ≡ by ++ s
unfolding replace_prefix
replace_prefix-append p by s = rw (starts_with-append p s, drop-append p s) refl

-- With a base, a path below `/api` loses that prefix; without one the path is asked for as it is.
api_url-paths :
    (base path : Text)
    → (api_url [] (text "/api" ++ path) ≡ text "/api" ++ path)
      × (base ≢ [] → api_url base (text "/api" ++ path) ≡ base ++ path)
unfolding api_url
api_url-paths [] path = (refl, λ n. absurd (n refl))
api_url-paths (c ∷ base) path = (refl, λ n. rw (replace_prefix-append (text "/api") [] path) refl)

-- The metrics socket speaks to the backend that the base names, with `wss` for `https` and `ws` for
-- `http`, and else to the host of the page, with `wss` exactly if that came by https.
ws_url-schemes :
    (host : Text) (at : Location)
    → (ws_url (some (text "https://" ++ host)) at ≡ text "wss://" ++ (host ++ text "/ws/metrics"))
      × (ws_url (some (text "http://" ++ host)) at ≡ text "ws://" ++ (host ++ text "/ws/metrics"))
      × (starts_with (text "wss://") (ws_url none at) ≡ at.is_https)
      × (starts_with (text "ws://") (ws_url none at) ≡ not at.is_https)
unfolding ws_url replace_prefix
ws_url-schemes host at = (
  refl,
  refl,
  elim (Bool-cases at.is_https) [ inl e ↦ rw e refl | inr e ↦ rw e refl ],
  elim (Bool-cases at.is_https) [ inl e ↦ rw e refl | inr e ↦ rw e refl ],
)
