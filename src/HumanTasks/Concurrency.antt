-- ===== src/HumanTasks/Concurrency.antt =====
-- app/human_tasks.py: two people act on the same task.
use law_review_local.HumanTasks.Lifecycle.{act_on_row-Flow}
use law_review_local.HumanTasks.{TextLibrary, Task, TaskAction, TaskStore, act_on_row}
use law_review_local.Access.{Principal}
use law_review_local.Common.{
  List, ℕ, ◌≡◌, ok, succeeded, false, Bool-cases, inr, inl, succeeded-ok, some, sym, ◌∙◌, ap,
  Option, arith, some_inj,
}
use law_review_local.HumanTasks.Lifecycle.Records.{put_task_self}

-- Of two actions made on the same reading of a task, at most one succeeds: after the first, the
-- second is refused whatever it is, since the first has raised the version.
pub act_on_row-once :
    (x : TextLibrary) (p q : Principal) (hidden hidden' : List ℕ) (row : Task) (a b : TaskAction)
    (ts ts' : ℕ) (s s' : TaskStore)
    → act_on_row x p hidden row a ts s ≡ ok s'
    → succeeded (act_on_row x q hidden' row b ts' s') ≡ false
act_on_row-once x p q hidden hidden' row a b ts ts' s s' h =
    elim (Bool-cases (succeeded (act_on_row x q hidden' row b ts' s'))) [
      | inr e ↦ e
      | inl e ↦
          let (s2, again) = succeeded-ok (act_on_row x q hidden' row b ts' s') e in
          let first = act_on_row-Flow x p hidden row a ts s s' h in
          let second = act_on_row-Flow x q hidden' row b ts' s' s2 again in
          let t' = first.1 in
          let t2 = second.0 in
          let same : some t' ≡ some t2 =
            sym (put_task_self row.id t' s.tasks)
            ∙ (sym (ap (λ (f : ℕ → Option Task). f row.id) first.5) ∙ second.3) in
          let versions : t'.version ≡ t2.version = ap (λ (t : Task). t.version) (some_inj same) in
          absurd (omega (arith, versions, first.7, first.4, second.4))
    ]
