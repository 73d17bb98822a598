-- ===== src/Retention/Tests.antt =====
-- Two settled tasks and a running one, two weeks and a day later.
use carbon_contractors_com.Prelude.{ℕ, ◌≡◌, refl, [], ◌∷◌, String, none, count, same, arith, ◌*◌}
use carbon_contractors_com.Schema.{TaskStatus, completed, expired, active, TaskRecord, includes}
use carbon_contractors_com.World.{answered, refused, lost}
use carbon_contractors_com.Store.{Machine}
use carbon_contractors_com.Store.Keeps.{IsLawful}
use carbon_contractors_com.Retention.{Content, is_logged, is_due, prune_expired_task_content}
use carbon_contractors_com.Retention.Kept.{IsKept, Stays, retention_law}
use carbon_contractors_com.Retention.Invariant.{prune_expired_task_content-IsLawful}
use carbon_contractors_com.Retention.Progress.{
  Ends, purge_first, runs, prune_expired_task_content-lem, runs-none_due,
}
use carbon_contractors_com.Scenario.{row}

abbrev task : String → TaskStatus → TaskRecord
task id status = record (row status none none) { id = id; payment_request_id = id }

abbrev content : Content
content = record {
  tasks = task "a" completed ∷ task "b" active ∷ task "c" expired ∷ [];
  history = ("a", "An earlier text.") ∷ ("b", "Another.") ∷ [];
  log = [];
}

-- 15 days, in seconds.
abbrev now : ℕ
now = 1296000

abbrev machine : Machine Content
machine = record { store = content; now = now * 1000; turns = []; randoms = [] }

-- The first call of the procedure is refused, the answer of the second lost.
abbrev troubled : Machine Content
troubled = record machine {
  turns =
      record { reply = answered; elapsed = 5; others = λ c. c }
      ∷ record { reply = refused; elapsed = 5; others = λ c. c }
      ∷ record { reply = lost; elapsed = 5; others = λ c. c }
      ∷ [];
}

due_test : count (is_due now) content.tasks ≡ 2
unfolding is_due includes
due_test = refl

content-IsKept : IsKept content
unfolding same is_logged
content-IsKept = record {
  distinct = ((refl, (refl, tt)), ((refl, tt), (tt, tt)));
  erased = (tt, (tt, (tt, tt)));
  once = tt;
  fresh = ((λ _. refl), ((λ _. refl), ((λ _. refl), tt)));
}

stands : (c : Content) → IsKept c → IsKept c × Stays c c
unfolding retention_law
stands c h = (h, retention_law.evolves_refl c)

troubled-IsLawful : IsLawful retention_law troubled
unfolding retention_law
troubled-IsLawful = record { store = content-IsKept; turns = (stands, (stands, (stands, tt))) }

prune_expired_task_content-IsLawful_example :
    IsKept (prune_expired_task_content now troubled).1.store
    × Stays content (prune_expired_task_content now troubled).1.store
prune_expired_task_content-IsLawful_example =
    prune_expired_task_content-IsLawful now troubled troubled-IsLawful

prune_expired_task_content-lem_example :
    Ends
      (now * 1000)
      (purge_first now (now * 1000) 200 content.tasks)
      (prune_expired_task_content now machine).1
prune_expired_task_content-lem_example =
    prune_expired_task_content-lem now machine content-IsKept refl (omega arith)

runs-none_due_example : count (is_due now) (runs now 1 machine).store.tasks ≡ 0
runs-none_due_example =
    runs-none_due now 1 machine content-IsKept refl (omega arith) (rw due_test (omega arith))
