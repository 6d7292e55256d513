-- ===== src/Widgets/WriteFeed/Falling.antt =====
-- LiveWriteFeed.tsx: the tokens arrive, and stay.
use lsmkv_enterprise.Common.{
  ℕ, suc, ◌+◌, ◌*◌, ◌≤◌, ◌≡◌, refl, sym, ap, subst, true, List, [], ◌∷◌, Text, arith, leb, ltb,
  length, filter, All, All-append, All-drop, All-filter, if_cases, inl, inr, slice_last, ◌⊎◌,
}
use lsmkv_enterprise.Widgets.WriteFeed.{
  WriteToken, Feed, empty_feed, spawn_token, fall_step, fall, fall_all, frame,
}

-- A token is above the memtable, or has arrived at it.
abbrev pub IsFalling : WriteToken → Type 0
IsFalling t = t.y ≤ 100

fall-IsFalling : (step : ℕ) (t : WriteToken) → IsFalling t → IsFalling (fall step t)
unfolding fall
fall-IsFalling step t h =
    if_cases IsFalling t.done (λ _. h)
      (λ _. if_cases IsFalling (leb 100 (t.y + step)) (λ _. omega arith) (λ e. ground arith))

fall_all-IsFalling :
    (step : ℕ) (ts : List WriteToken) → All IsFalling ts → All IsFalling (fall_all step ts)
unfolding fall_all
fall_all-IsFalling step [] h = tt
fall_all-IsFalling step (t ∷ ts) (h, hs) = (fall-IsFalling step t h, fall_all-IsFalling step ts hs)

nothing_leaves : (ts : List WriteToken) → All IsFalling ts → filter (λ t. ltb t.y 110) ts ≡ ts
nothing_leaves [] h = refl
nothing_leaves (t ∷ ts) (h, hs) =
    let e : ltb t.y 110 ≡ true = ground arith in rw e (ap (◌∷◌ t) (nothing_leaves ts hs))

pub data FeedEvent : Type 0 where
  spawns : ℕ → FeedEvent
  draws_frame : Text → ℕ → FeedEvent

unfoldable pub feed_step : FeedEvent → Feed → Feed
feed_step (spawns latency) f = spawn_token latency f
feed_step (draws_frame ts writes_per_sec) f = frame ts writes_per_sec f

unfoldable pub feed_run : List FeedEvent → Feed → Feed
feed_run [] f = f
feed_run (e ∷ es) f = feed_run es (feed_step e f)

feed_step-IsFalling :
    (e : FeedEvent) (f : Feed) → All IsFalling f.tokens → All IsFalling (feed_step e f).tokens
unfolding feed_step spawn_token frame
feed_step-IsFalling (spawns latency) f h =
    All-append IsFalling (slice_last 20 f.tokens) _ (All-drop IsFalling _ f.tokens h)
      (omega arith, tt)
feed_step-IsFalling (draws_frame ts writes_per_sec) f h =
    let k = fall_all-IsFalling (fall_step writes_per_sec) f.tokens h in
    subst (All IsFalling) (sym (nothing_leaves _ k)) k

feed_run-IsFalling :
    (es : List FeedEvent) (f : Feed) → All IsFalling f.tokens → All IsFalling (feed_run es f).tokens
unfolding feed_run
feed_run-IsFalling [] f h = h
feed_run-IsFalling (e ∷ es) f h = feed_run-IsFalling es (feed_step e f) (feed_step-IsFalling e f h)

-- A token that has arrived never leaves by a frame: after any run of the feed, the next frame keeps
-- every token, although it is written to drop those below the memtable.
frame-keeps :
    (es : List FeedEvent) (ts : Text) (writes_per_sec : ℕ)
    → let f = feed_run es empty_feed in
      (frame ts writes_per_sec f).tokens ≡ fall_all (fall_step writes_per_sec) f.tokens
unfolding frame
frame-keeps es ts writes_per_sec =
    nothing_leaves _
      (fall_all-IsFalling (fall_step writes_per_sec) _ (feed_run-IsFalling es empty_feed tt))

-- Frames alone, each with its time and its rate.
unfoldable pub frames : List (Text × ℕ) → Feed → Feed
frames [] f = f
frames ((ts, writes_per_sec) ∷ rest) f = frames rest (frame ts writes_per_sec f)

-- A token that has fallen far enough, or has arrived.
abbrev HasFallen : ℕ → WriteToken → Type 0
HasFallen n t = (t.done ≡ true) ⊎ (3 * n ≤ t.y)

fall_step-least : (writes_per_sec : ℕ) → 3 ≤ fall_step writes_per_sec
fall_step-least writes_per_sec = ground arith

fall-HasFallen :
    (n step : ℕ) (t : WriteToken) → 3 ≤ step → HasFallen n t → HasFallen (suc n) (fall step t)
unfolding fall
fall-HasFallen n step t h k =
    if_cases (HasFallen (suc n)) t.done (λ e. inl e)
      (λ e.
        if_cases (HasFallen (suc n)) (leb 100 (t.y + step)) (λ _. inl refl)
          (λ _. inr (ground arith)))

fall_all-HasFallen :
    (n step : ℕ) (ts : List WriteToken)
    → 3 ≤ step
    → All (HasFallen n) ts
    → All (HasFallen (suc n)) (fall_all step ts)
unfolding fall_all
fall_all-HasFallen n step [] h k = tt
fall_all-HasFallen n step (t ∷ ts) h (k, ks) =
    (fall-HasFallen n step t h k, fall_all-HasFallen n step ts h ks)

frame-HasFallen :
    (n : ℕ) (ts : Text) (writes_per_sec : ℕ) (f : Feed)
    → All (HasFallen n) f.tokens
    → All (HasFallen (suc n)) (frame ts writes_per_sec f).tokens
unfolding frame
frame-HasFallen n ts writes_per_sec f h =
    All-filter (HasFallen (suc n)) (λ t. ltb t.y 110) _
      (fall_all-HasFallen n _ f.tokens (fall_step-least writes_per_sec) h)

frame-IsFalling :
    (ts : Text) (writes_per_sec : ℕ) (f : Feed)
    → All IsFalling f.tokens
    → All IsFalling (frame ts writes_per_sec f).tokens
unfolding frame
frame-IsFalling ts writes_per_sec f h =
    All-filter IsFalling (λ t. ltb t.y 110) _ (fall_all-IsFalling _ f.tokens h)

frames-HasFallen :
    (n : ℕ) (fs : List (Text × ℕ)) (f : Feed)
    → All IsFalling f.tokens
    → All (HasFallen n) f.tokens
    → All IsFalling (frames fs f).tokens × All (HasFallen (n + length fs)) (frames fs f).tokens
unfolding frames
frames-HasFallen n [] f h k =
    let e : n ≡ n + 0 = omega arith in (h, subst (λ m. All (HasFallen m) f.tokens) e k)
frames-HasFallen n ((ts, w) ∷ fs) f h k =
    let e : suc n + length fs ≡ n + suc (length fs) = omega arith in
    let (a, b) =
      frames-HasFallen (suc n) fs (frame ts w f) (frame-IsFalling ts w f h)
        (frame-HasFallen n ts w f k) in
    (a, subst (λ m. All (HasFallen m) (frames fs (frame ts w f)).tokens) e b)

arrived : (n : ℕ) (t : WriteToken) → 34 ≤ n → IsFalling t → HasFallen n t → t.done ≡ true
arrived n t h k (inl e) = e
arrived n t h k (inr l) = absurd (omega arith)

arrived_all :
    (n : ℕ) (ts : List WriteToken)
    → 34 ≤ n
    → All IsFalling ts
    → All (HasFallen n) ts
    → All (λ t. t.done ≡ true) ts
arrived_all n [] h k l = tt
arrived_all n (t ∷ ts) h (k, ks) (l, ls) = (arrived n t h k l, arrived_all n ts h ks ls)

start_fallen : (ts : List WriteToken) → All (HasFallen 0) ts
start_fallen [] = tt
start_fallen (t ∷ ts) = (inr (omega arith), start_fallen ts)

-- Every token arrives: after any run of the feed, 34 frames at any rates are enough for all of the
-- tokens there are.
frames-arrive :
    (es : List FeedEvent) (fs : List (Text × ℕ))
    → 34 ≤ length fs
    → All (λ t. t.done ≡ true) (frames fs (feed_run es empty_feed)).tokens
frames-arrive es fs h =
    let f = feed_run es empty_feed in
    let (a, b) =
      frames-HasFallen 0 fs f (feed_run-IsFalling es empty_feed tt) (start_fallen f.tokens) in
    arrived_all (length fs) _ h a
      (subst (λ n. All (HasFallen n) (frames fs f).tokens) (omega arith) b)
