-- ===== src/HumanTasks/Lifecycle/Traces.antt =====
-- app/human_tasks.py: sequences of requests. A refused request is rolled back by `transaction`.
use law_review_local.HumanTasks.Lifecycle.Records.{
  IsSound, act_on_task-IsSound, create_task-IsSound, load_task-eq-ok, create_task-Created,
}
use law_review_local.HumanTasks.Lifecycle.{act_on_row-Accepted}
use law_review_local.Access.{Principal}
use law_review_local.HumanTasks.{
  TextLibrary, act_on_task, TaskStore, create_task, TaskAction, Task, TaskCreate, is_open,
  load_task,
}
use law_review_local.Common.{
  Http, List, ◌∷◌, ◌≡◌, ℕ, ok, raise, refl, some, [], false, >>=-eq-ok, Bool-cases, arith, ◌==◌,
  inl, sym, ◌∙◌, ==_iff, ap, true, inr, some_inj,
}

pub data Request : Type 0 where
  act : Principal → List ℕ → ℕ → TaskAction → ℕ → Request
  create : Principal → ℕ → TaskCreate → ℕ → Request

handle : TextLibrary → Request → TaskStore → Http TaskStore
handle x (act p hidden i b ts) s = act_on_task x p hidden i b ts s
handle x (create p c b ts) s = create_task x p c b ts s

abbrev pub committed : TaskStore → Http TaskStore → TaskStore
committed s (ok s') = s'
committed s (raise n d) = s

pub serve : TextLibrary → List Request → TaskStore → TaskStore
unfolding handle
serve x [] s = s
serve x (r ∷ rs) s = serve x rs (committed s (handle x r s))

committed-IsSound :
    (s : TaskStore) (m : Http TaskStore)
    → ((s' : TaskStore) → m ≡ ok s' → IsSound s')
    → IsSound s
    → IsSound (committed s m)
committed-IsSound s (ok s') k h = k s' refl
committed-IsSound s (raise n d) k h = h

handle-IsSound :
    (x : TextLibrary) (r : Request) (s : TaskStore)
    → IsSound s
    → IsSound (committed s (handle x r s))
unfolding handle
handle-IsSound x (act p hidden i b ts) s h =
    committed-IsSound s (act_on_task x p hidden i b ts s)
      (λ s' e. act_on_task-IsSound x p hidden i b ts s s' h e) h
handle-IsSound x (create p c b ts) s h =
    committed-IsSound s (create_task x p c b ts s) (λ s' e. create_task-IsSound x p c b ts s s' h e)
      h

-- Whatever requests are served, by whom and in whatever order, the store stays sound.
pub serve-IsSound :
    (x : TextLibrary) (rs : List Request) (s : TaskStore) → IsSound s → IsSound (serve x rs s)
unfolding serve
serve-IsSound x [] s h = h
serve-IsSound x (r ∷ rs) s h =
    serve-IsSound x rs (committed s (handle x r s)) (handle-IsSound x r s h)

committed-keeps :
    (s : TaskStore) (m : Http TaskStore) (i : ℕ) (t : Task)
    → ((s' : TaskStore) → m ≡ ok s' → s'.tasks i ≡ some t)
    → s.tasks i ≡ some t
    → (committed s m).tasks i ≡ some t
committed-keeps s (ok s') i t k h = k s' refl
committed-keeps s (raise n d) i t k h = h

act-keeps_finished :
    (x : TextLibrary) (p : Principal) (hidden : List ℕ) (j i : ℕ) (b : TaskAction) (ts : ℕ)
    (t : Task) (s s' : TaskStore)
    → IsSound s
    → s.tasks i ≡ some t
    → is_open t.status ≡ false
    → act_on_task x p hidden j b ts s ≡ ok s'
    → s'.tasks i ≡ some t
unfolding act_on_task
act-keeps_finished x p hidden j i b ts t s s' snd h f e =
    let (row, l, r) = >>=-eq-ok (load_task s j) _ e in
    let at : s.tasks j ≡ some row = load_task-eq-ok s j l in
    let key : row.id ≡ j = snd.keyed j row at in
    let a = act_on_row-Accepted x p hidden row b ts s s' r in
    rw a.performed.written.now (elim (Bool-cases (row.id == i)) [
      | inl q ↦
          let ji : j ≡ i = sym key ∙ (==_iff row.id i).0 q in
          let same : row ≡ t = some_inj (sym at ∙ (ap s.tasks ji ∙ h)) in
          let live : is_open t.status ≡ true = rw (← same) a.live in absurd (ground arith)
      | inr q ↦ ground arith
    ])

create-keeps :
    (x : TextLibrary) (p : Principal) (c i : ℕ) (b : TaskCreate) (ts : ℕ) (t : Task)
    (s s' : TaskStore)
    → IsSound s
    → s.tasks i ≡ some t
    → create_task x p c b ts s ≡ ok s'
    → s'.tasks i ≡ some t
create-keeps x p c i b ts t s s' snd h e =
    rw (create_task-Created x p c b ts s s' e).now (ground (arith, snd.known i t h))

handle-keeps_finished :
    (x : TextLibrary) (r : Request) (i : ℕ) (t : Task) (s : TaskStore)
    → IsSound s
    → s.tasks i ≡ some t
    → is_open t.status ≡ false
    → (committed s (handle x r s)).tasks i ≡ some t
unfolding handle
handle-keeps_finished x (act p hidden j b ts) i t s snd h f =
    committed-keeps s (act_on_task x p hidden j b ts s) i t
      (λ s' e. act-keeps_finished x p hidden j i b ts t s s' snd h f e) h
handle-keeps_finished x (create p c b ts) i t s snd h f =
    committed-keeps s (create_task x p c b ts s) i t
      (λ s' e. create-keeps x p c i b ts t s s' snd h e) h

-- A completed or cancelled task is final: no sequence of requests changes its row.
pub serve-keeps_finished :
    (x : TextLibrary) (rs : List Request) (i : ℕ) (t : Task) (s : TaskStore)
    → IsSound s
    → s.tasks i ≡ some t
    → is_open t.status ≡ false
    → (serve x rs s).tasks i ≡ some t
unfolding serve
serve-keeps_finished x [] i t s snd h f = h
serve-keeps_finished x (r ∷ rs) i t s snd h f =
    serve-keeps_finished x rs i t (committed s (handle x r s)) (handle-IsSound x r s snd)
      (handle-keeps_finished x r i t s snd h f) f
