-- ===== src/Socket/Links.antt =====
-- useMetricsWS.ts: which sockets will report their end to the hook.
use lsmkv_enterprise.Common.{
  ℕ, ◌≡◌, ◌≢◌, refl, ◌⊎◌, inl, inr, true, false, Option, none, some, List, [], ◌∷◌, arith, ◌==◌,
  nat_eq, any, Bool-cases, if_cases, All, All-map,
}
use lsmkv_enterprise.Socket.{
  ReadyState, connecting, opened, closing, closed, Socket, is_closed, update_socket, with_ready,
  close_socket, open_socket, abandon, reports_close, abandon_current,
}

-- A socket that will report its end is the one in `wsRef`.
abbrev pub IsLinked : Option ℕ → Socket → Type 0
IsLinked ref s = s.on_close ≡ true → is_closed s.ready_state ≡ false → ref ≡ some s.id

All-update :
    (P Q : Socket → Type 0) (i : ℕ) (f : Socket → Socket) (ss : List Socket)
    → ((s : Socket) → s.id ≡ i → P s → Q (f s))
    → ((s : Socket) → s.id ≢ i → P s → Q s)
    → All P ss
    → All Q (update_socket i f ss)
unfolding update_socket
All-update P Q i f [] hit miss h = tt
All-update P Q i f (s ∷ ss) hit miss h = (
  if_cases Q (s.id == i) (λ e. hit s (ground arith) h.0) (λ e. miss s (ground arith) h.0),
  All-update P Q i f ss hit miss h.1,
)

-- A change that keeps `id` and `on_close` and reopens no socket keeps the links.
pub update-IsLinked :
    (ref : Option ℕ) (i : ℕ) (f : Socket → Socket) (ss : List Socket)
    → ((s : Socket) → IsLinked ref s → IsLinked ref (f s))
    → All (IsLinked ref) ss
    → All (IsLinked ref) (update_socket i f ss)
update-IsLinked ref i f ss k =
    All-update (IsLinked ref) (IsLinked ref) i f ss (λ s _. k s) (λ s _ l. l)

-- Where no socket reports its end, any reference will do.
pub unlinked : (ref : Option ℕ) (ss : List Socket) → All (IsLinked none) ss → All (IsLinked ref) ss
unlinked ref ss l = All-map (λ s k a b. absurd (ground (arith, k a b))) ss l

-- What one socket's end leaves: no other socket reports its own.
pub ended :
    (ref : Option ℕ) (i : ℕ) (ss : List Socket)
    → ref ≡ some i
    → All (IsLinked ref) ss
    → All (IsLinked none) (update_socket i (with_ready closed) ss)
ended ref i ss e =
    All-update (IsLinked ref) (IsLinked none) i (with_ready closed) ss
      (λ s _ k a b. absurd (ground arith)) (λ s ne k a b. absurd (ground (arith, k a b)))

ready-cases : (r : ReadyState) → (r ≡ connecting) ⊎ (r ≡ opened) ⊎ (r ≡ closing) ⊎ (r ≡ closed)
ready-cases connecting = inl refl
ready-cases opened = inr (inl refl)
ready-cases closing = inr (inr (inl refl))
ready-cases closed = inr (inr (inr refl))

abandon_silent : (s : Socket) → (abandon s).on_close ≢ true
abandon_silent s = elim (ready-cases s.ready_state) [
  | inl e ↦ rw e (ground arith)
  | inr (inl e) ↦ rw e (ground arith)
  | inr (inr (inl e)) ↦ rw e (ground arith)
  | inr (inr (inr e)) ↦ rw e (ground arith)
]

pub close_socket-IsLinked :
    (ref : Option ℕ) (s : Socket) → IsLinked ref s → IsLinked ref (close_socket s)
close_socket-IsLinked ref s l = elim (ready-cases s.ready_state) [
  | inl e ↦ rw e (λ a b. l a (ground arith))
  | inr (inl e) ↦ rw e (λ a b. l a (ground arith))
  | inr (inr (inl e)) ↦ rw e (λ a b. l a (ground arith))
  | inr (inr (inr e)) ↦ rw e (λ a b. absurd (ground arith))
]

pub open_socket-IsLinked :
    (ref : Option ℕ) (s : Socket) → IsLinked ref s → IsLinked ref (open_socket s)
open_socket-IsLinked ref s l = elim (ready-cases s.ready_state) [
  | inl e ↦ rw e (λ a b. l a (ground arith))
  | inr (inl e) ↦ rw e (λ a b. l a (ground arith))
  | inr (inr (inl e)) ↦ rw e (λ a b. l a (ground arith))
  | inr (inr (inr e)) ↦ rw e (λ a b. absurd (ground arith))
]

pub abandoned :
    (ref : Option ℕ) (ss : List Socket)
    → All (IsLinked ref) ss
    → All (IsLinked none) (abandon_current ref ss)
abandoned none ss l = l
abandoned (some i) ss l =
    All-update (IsLinked (some i)) (IsLinked none) i abandon ss
      (λ s _ k a b. absurd (abandon_silent s a)) (λ s ne k a b. absurd (ground (arith, k a b))) l

-- The socket that reports its end is the one in `wsRef`.
pub reporter :
    (ref : Option ℕ) (i : ℕ) (ss : List Socket)
    → All (IsLinked ref) ss
    → any (reports_close i) ss ≡ true
    → ref ≡ some i
reporter ref i [] l e = absurd (ground arith)
reporter ref i (s ∷ ss) l e = elim (Bool-cases (reports_close i s)) [
  | inl hit ↦ ground (arith, l.0 (ground arith) (ground arith))
  | inr miss ↦ reporter ref i ss l.1 (ground arith)
]
