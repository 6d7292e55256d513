-- ===== src/Widgets/ReadPath.antt =====
-- components/storage/ReadPathAnimator.tsx: the search of a key through the levels. The delays fix the
-- order of a search's timers; those of different searches may fire in any order, so `pending` is a list
-- of which any may be next. Random numbers are arguments. The sum of the latencies is left out.
pub mod Search
use lsmkv_enterprise.Common.{
  ℕ, zero, suc, ◌+◌, ◌-◌, ◌*◌, min, Bool, true, false, ◌&&◌, not, Option, none, some, List, [], ◌∷◌,
  ◌++◌, Text, text, decimal, ◌==◌, nat_eq, if◌then◌else◌, length, trim,
}

pub data StepStatus : Type 0 where
  pending checking miss hit bloom_miss bloom_hit : StepStatus

pub record PathStep : Type 0 where
  pub id : Text
  pub label : Text
  pub sublabel : Text
  pub status : StepStatus
  pub latency_ms : Option ℕ

abbrev plural : ℕ → Text
plural (suc zero) = []
plural n = text "s"

-- The steps of the levels from a place on, of which at most `room` are shown; a level is its count.
unfoldable pub level_steps : ℕ → ℕ → List ℕ → List PathStep
level_steps i zero levels = []
level_steps i (suc room) [] = []
level_steps i (suc room) (count ∷ levels) =
    record {
      id = text "l" ++ decimal i;
      label = text "Level " ++ decimal i ++ text " (L" ++ decimal i ++ text ")";
      sublabel = decimal count ++ text " SSTable" ++ plural count;
      status = pending;
      latency_ms = none;
    }
    ∷ level_steps (suc i) room levels

unfoldable pub build_steps : List ℕ → List PathStep
build_steps levels =
    record {
      id = text "bloom";
      label = text "Bloom Filter";
      sublabel = text "Check if key might exist";
      status = pending;
      latency_ms = none;
    }
    ∷ level_steps 0 4 levels

-- The callbacks of a search; that of a level's answer knows the level of the hit, the number of the
-- levels and the drawn latency.
pub data PathTimer : Type 0 where
  bloom_checks : PathTimer
  bloom_answers : ℕ → PathTimer
  level_checks : ℕ → PathTimer
  level_answers : ℕ → ℕ → ℕ → ℕ → PathTimer

pub data Outcome : Type 0 where
  found_in : ℕ → Outcome
  not_found : Outcome

pub record PathView : Type 0 where
  pub key_input : Text
  pub steps : List PathStep
  pub running : Bool
  pub found_at : Option Outcome
  pub timers : List PathTimer

-- The timers of the levels from `idx` on, `count` of them, in the order of their delays.
unfoldable pub level_timers : ℕ → ℕ → ℕ → (ℕ → ℕ) → ℕ → List PathTimer
level_timers hit_level total idx latency zero = []
level_timers hit_level total idx latency (suc count) =
    level_checks idx
    ∷ level_answers idx hit_level total (latency idx)
    ∷ level_timers hit_level total (suc idx) latency count

unfoldable pub shown_count : List ℕ → ℕ
shown_count levels = min (length levels) 4

abbrev pub search_or : Text → PathView → PathView → PathView
search_or [] v w = v
search_or (c ∷ key) v w = if v.running then v else w

-- A search that begins, with the drawn level of the hit and the drawn latencies.
abbrev pub searching : List ℕ → ℕ → ℕ → (ℕ → ℕ) → PathView → PathView
searching levels hit_level bloom_latency latency v = record v {
  running = true;
  found_at = none;
  steps = build_steps levels;
  timers =
      v.timers
      ++ bloom_checks
        ∷ bloom_answers bloom_latency
        ∷ level_timers hit_level (shown_count levels) 0 latency (shown_count levels);
}

unfoldable pub run_animation : List ℕ → ℕ → ℕ → (ℕ → ℕ) → PathView → PathView
run_animation levels hit_level bloom_latency latency v =
    search_or (trim v.key_input) v (searching levels hit_level bloom_latency latency v)

unfoldable pub mark_step : ℕ → StepStatus → Option ℕ → List PathStep → List PathStep
mark_step i status latency [] = []
mark_step zero status latency (s ∷ steps) =
    record s {
      status = status;
      latency_ms = elim latency [ none ↦ s.latency_ms | some l ↦ some l ];
    }
    ∷ steps
mark_step (suc i) status latency (s ∷ steps) = s ∷ mark_step i status latency steps

-- What an answer of a level ends: the search, where it is the hit or the last level.
abbrev pub concluded : Bool → Bool → ℕ → PathView → PathView
concluded true last idx v = record v { found_at = some (found_in idx); running = false }
concluded false true idx v = record v { found_at = some not_found; running = false }
concluded false false idx v = v

unfoldable pub fire_path : PathTimer → PathView → PathView
fire_path bloom_checks v = record v { steps = mark_step 0 checking none v.steps }
fire_path (bloom_answers latency) v = record v {
  steps = mark_step 0 bloom_hit (some latency) v.steps;
}
fire_path (level_checks idx) v = record v { steps = mark_step (suc idx) checking none v.steps }
fire_path (level_answers idx hit_level total latency) v =
    concluded (idx == hit_level) (suc idx == total) idx (record v {
      steps =
          mark_step (suc idx) (if idx == hit_level then hit else miss) (some (latency * suc idx))
            v.steps;
    })

unfoldable pub fire_paths : List PathTimer → PathView → PathView
fire_paths [] v = v
fire_paths (t ∷ ts) v = fire_paths ts (fire_path t v)
