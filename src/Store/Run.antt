-- ===== src/Store/Run.antt =====
-- The operations on statuses as data, to run two stores of the interface by the same ones.
use go_r2ps_service.Base.{List, [], ◌∷◌, ℕ, String, Option, string_eq, nat_eq}
use go_r2ps_service.Base.Assoc.{lookup}
use go_r2ps_service.Base.Exec.{Result, ok, err}
use go_r2ps_service.Store.{Store, StoreError}

-- The operations on statuses, and their answers. A list of statuses is a Go map.
pub data Operation : Type 0 where
  allocate : String → Operation
  status_of : String → ℕ → Operation
  put : String → ℕ → ℕ → Operation
  list : String → Operation

pub data Answer : Type 0 where
  index status : ℕ → Answer
  done : Answer
  statuses : (ℕ → Option ℕ) → Answer

abbrev pub answered : {A : Type 0} → (A → Answer) → Result StoreError A → Result StoreError Answer
answered f (ok a) = ok (f a)
answered f (err e) = err e

abbrev pub run : {S : Type 0} → Store S → Operation → S → Result StoreError Answer × S
run s (allocate category) w = let r = s.allocate_index category w in (answered index r.0, r.1)
run s (status_of category idx) w = (answered status (s.get_status category idx w), w)
run s (put category idx value) w =
    let r = s.set_status category idx value w in (answered (λ _. done) r.0, r.1)
run s (list category) w =
    (answered (λ m. statuses (λ i. lookup i m)) (s.get_all_statuses category w), w)

abbrev pub run_all :
    {S : Type 0} → Store S → List Operation → S → List (Result StoreError Answer) × S
run_all s [] w = ([], w)
run_all s (op ∷ ops) w = let (r, v) = run s op w in let (rs, u) = run_all s ops v in (r ∷ rs, u)
