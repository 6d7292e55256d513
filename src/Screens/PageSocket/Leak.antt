-- ===== src/Screens/PageSocket/Leak.antt =====
-- Storage.tsx and Logs.tsx: what is left of a socket when the page is left.
use lsmkv_enterprise.Common.{ℕ, ◌≡◌, none, some, [], ◌∷◌, nat_eq}
use lsmkv_enterprise.Screens.PageSocket.{PageSocket}

-- A page that waits for its reconnection, after its socket has closed.
abbrev pub IsWaiting : ℕ → PageSocket → Type 0
IsWaiting t p = (p.ws_ref ≡ none) × (p.timers ≡ t ∷ []) × (p.reconnect_ref ≡ some t)
