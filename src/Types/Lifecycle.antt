-- ===== src/Types/Lifecycle.antt =====
-- crates/fndr-types/src/lifecycle.rs: the enumerations that are stored as integers.
use fndr.Prelude.{
  ℕ, ◌≡◌, ◌↔◌, Bool, false, Result, ok, err, if◌then◌else◌, ◌==◌, arith, List, [], ◌∷◌,
}
use fndr.Text.{Text, codes}

-- `i64`, within its range.
pub data ℤ : Type 0 where
  pos : ℕ → ℤ
  negsuc : ℕ → ℤ

unfoldable pub int_eq : ℤ → ℤ → Bool
int_eq (pos a) (pos b) = a == b
int_eq (negsuc a) (negsuc b) = a == b
int_eq _ _ = false

pub data ReviewLifecycle : Type 0 where
  captured pending reviewed_local reviewed_daily review_failed : ReviewLifecycle

pub data TaskStatus : Type 0 where
  open_task done dismissed : TaskStatus

pub record UnknownDiscriminant : Type 0 where
  pub type_name : Text
  pub value : ℤ

unfoldable pub review_to_int : ReviewLifecycle → ℤ
review_to_int captured = pos 0
review_to_int pending = pos 1
review_to_int reviewed_local = pos 2
review_to_int reviewed_daily = pos 3
review_to_int review_failed = pos 4

unfoldable pub task_to_int : TaskStatus → ℤ
task_to_int open_task = pos 0
task_to_int done = pos 1
task_to_int dismissed = pos 2

-- The macro's `try_from` over the listed variants.
unfoldable pub try_from : {A : Type 0} → (A → ℤ) → Text → List A → ℤ → Result A UnknownDiscriminant
try_from to_int type_name [] value = err (record { type_name = type_name; value = value })
try_from to_int type_name (v ∷ vs) value =
    let rest = try_from to_int type_name vs value in if int_eq value (to_int v) then ok v else rest

unfoldable pub all_reviews : List ReviewLifecycle
all_reviews = captured ∷ pending ∷ reviewed_local ∷ reviewed_daily ∷ review_failed ∷ []

unfoldable pub all_tasks : List TaskStatus
all_tasks = open_task ∷ done ∷ dismissed ∷ []

unfoldable pub review_try_from : ℤ → Result ReviewLifecycle UnknownDiscriminant
review_try_from = try_from review_to_int (codes "ReviewLifecycle") all_reviews

unfoldable pub task_try_from : ℤ → Result TaskStatus UnknownDiscriminant
task_try_from = try_from task_to_int (codes "TaskStatus") all_tasks

-- An integer is read as a review state exactly if it is the one that the state is written as.
pub review_try_from_iff :
    (value : ℤ) (state : ReviewLifecycle)
    → (review_try_from value ≡ ok state) ↔ (value ≡ review_to_int state)
unfolding review_try_from try_from all_reviews int_eq review_to_int
review_try_from_iff value state = ground arith

-- The same for task states.
pub task_try_from_iff :
    (value : ℤ) (state : TaskStatus)
    → (task_try_from value ≡ ok state) ↔ (value ≡ task_to_int state)
unfolding task_try_from try_from all_tasks int_eq task_to_int
task_try_from_iff value state = ground arith
