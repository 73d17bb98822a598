-- ===== src/Tools/Private.antt =====
-- What the tools get_task_status and confirm_task_completion show and change.
use carbon_contractors_com.Prelude.{
  ℕ, ◌/◌, ◌≤◌, ◌≡◌, refl, sym, ap, subst, ◌∙◌, Bool, true, false, not, ◌||◌, Option, none, some,
  String, same, same_iff, lower, if◌then◌else◌, arith, Bool-cases, inl, inr,
}
use carbon_contractors_com.Schema.{TaskRecord, is, active, pending, completed}
use carbon_contractors_com.World.{World, Result, ok, err, M, continue, settle, attempt, ◌>>=◌}
use carbon_contractors_com.Tasks.Transitions.{get_task_by_payment_id}
use carbon_contractors_com.Tools.{
  ToolResult, answer, or_internal, Projection, OnChainView, no_escrow, unreadable, shown, Reclaim,
  TaskView, Escrow, is_owning_agent, is_funded, is_lapsed, on_chain_view, reclaim_of, task_view,
  show_found, get_task_status, confirm_found, confirm_task_completion,
}

module _ (escrow : Escrow) where
  owner-shown :
      (caller : Option String) (t : TaskRecord) (d : String)
      → (if is_owning_agent caller t then some t.task_description else none) ≡ some d
      → (wallet : String) × (caller ≡ some wallet) × (lower t.from_agent_wallet ≡ lower wallet)
  unfolding is_owning_agent
  owner-shown none t d e = cc
  owner-shown (some wallet) t d e =
      (wallet, refl, ground (arith, same_iff (lower t.from_agent_wallet) (lower wallet)))

  view-shown :
      (caller : Option String) (id : String) (now : ℕ) (t : TaskRecord) (d : String)
      → (task_view escrow caller id now t).task_description ≡ some d
      → (wallet : String) × (caller ≡ some wallet)
        × (lower (task_view escrow caller id now t).from_agent ≡ lower wallet)
  unfolding task_view
  view-shown caller id now t d e = owner-shown caller t d e

  -- Of a read, what the tool answers.
  abbrev pub answered_to :
      Option String
      → String
      → Result (Option TaskRecord) × World
      → Result (ToolResult TaskView) × World
  answered_to caller id x = settle or_internal (continue (show_found escrow caller id) x)

  answered-shown :
      (caller : Option String) (id : String) (x : Result (Option TaskRecord) × World) (v : TaskView)
      (d : String)
      → (answered_to caller id x).0 ≡ ok (answer v)
      → v.task_description ≡ some d
      → (wallet : String) × (caller ≡ some wallet) × (lower v.from_agent ≡ lower wallet)
  unfolding ◌>>=◌
  answered-shown caller id (err e, w) v d h f = cc
  answered-shown caller id (ok none, w) v d h f = cc
  answered-shown caller id (ok (some t), w) v d h f =
      let same_view : task_view escrow caller id w.now t ≡ v = cc in
      subst (λ u. (wallet : String) × (caller ≡ some wallet) × (lower u.from_agent ≡ lower wallet))
        same_view (view-shown caller id w.now t d (rw same_view f))

  -- In every world, a description is shown only to the authenticated wallet of the task's own agent.
  pub get_task_status-Private :
      (caller : Option String) (id : String) (w : World) (v : TaskView) (d : String)
      → (get_task_status escrow caller id w).0 ≡ ok (answer v)
      → v.task_description ≡ some d
      → (wallet : String) × (caller ≡ some wallet) × (lower v.from_agent ≡ lower wallet)
  unfolding get_task_status attempt ◌>>=◌
  get_task_status-Private caller id w v d h f =
      answered-shown caller id (get_task_by_payment_id id w) v d h f

  shown-quiet :
      (caller : Option String) (id : String) (x : Result (Option TaskRecord) × World)
      → (answered_to caller id x).1 ≡ x.1
  unfolding ◌>>=◌
  shown-quiet caller id (err e, w) = refl
  shown-quiet caller id (ok none, w) = refl
  shown-quiet caller id (ok (some t), w) = refl

  if-quiet :
      {A : Type 0} (b : Bool) (m n : M A) (w : World)
      → (m w).1 ≡ w
      → (n w).1 ≡ w
      → ((if b then m else n) w).1 ≡ w
  if-quiet true m n w e f = e
  if-quiet false m n w e f = f

  found-quiet :
      (caller id : String) (o : Option TaskRecord) (w : World)
      → (confirm_found escrow caller id o w).1 ≡ w
  unfolding ◌>>=◌
  found-quiet caller id none w = refl
  found-quiet caller id (some t) w =
      if-quiet (not (same (lower t.from_agent_wallet) (lower caller))) _ _ w refl (
        if-quiet (is t.status active || is t.status pending) _ _ w refl
          (if-quiet (is t.status completed) _ _ w refl refl))

  internal-quiet : {A : Type 0} (x : Result (ToolResult A) × World) → (settle or_internal x).1 ≡ x.1
  unfolding ◌>>=◌
  internal-quiet (ok a, w) = refl
  internal-quiet (err e, w) = refl

  continue-quiet :
      (caller id : String) (x : Result (Option TaskRecord) × World)
      → (continue (confirm_found escrow caller id) x).1 ≡ x.1
  continue-quiet caller id (ok o, w) = found-quiet caller id o w
  continue-quiet caller id (err e, w) = refl

  -- A confirmation by an authenticated wallet changes no more than the read of the task does, nor does
  -- a look at its status: whatever the outcome, nothing is written and nobody is told.
  pub confirm_task_completion-quiet :
      (caller id : String) (w : World)
      → same caller "" ≡ false
      → ((confirm_task_completion escrow (some caller) id w).1 ≡ (get_task_by_payment_id id w).1)
        × ((get_task_status escrow (some caller) id w).1 ≡ (get_task_by_payment_id id w).1)
  unfolding confirm_task_completion get_task_status attempt ◌>>=◌
  confirm_task_completion-quiet caller id w known = (
    rw known (
        internal-quiet (continue (confirm_found escrow caller id) (get_task_by_payment_id id w))
        ∙ continue-quiet caller id (get_task_by_payment_id id w)),
    shown-quiet (some caller) id (get_task_by_payment_id id w),
  )

  -- Why a refund is offered.
  pub record IsLapsed (now : ℕ) (v : TaskView) (r : Reclaim) : Type 0 where
    pub on_chain : Projection
    pub read : v.on_chain ≡ shown on_chain
    pub locked : is_funded on_chain.state ≡ true
    pub late : on_chain.deadline ≤ now / 1000
    pub agent : r.callable_by ≡ on_chain.agent

  reclaim-Lapsed :
      (id : String) (now : ℕ) (o : OnChainView) (r : Reclaim)
      → reclaim_of escrow id now o ≡ some r
      → (p : Projection) × (o ≡ shown p)
        × (is_funded p.state ≡ true)
        × (p.deadline ≤ now / 1000)
        × (r.callable_by ≡ p.agent)
  unfolding is_lapsed
  reclaim-Lapsed id now no_escrow r e = cc
  reclaim-Lapsed id now unreadable r e = cc
  reclaim-Lapsed id now (shown p) r e = elim (Bool-cases (is_lapsed now p)) [
    | inl late ↦
        let offer : Reclaim = record {
          escrow_contract = escrow.address;
          task_id_bytes32 = escrow.to_task_id id;
          callable_by = p.agent;
        } in
        let given : some offer ≡ some r = offered (is_lapsed now p) offer r late e in
        let same_offer : offer ≡ r = cc in
        (p, refl, ground arith, ground arith, ap (λ x. x.callable_by) (sym same_offer))
    | inr early ↦ elim (not_offered (is_lapsed now p) _ r early e) [ ]
  ]
    where
      offered :
          (b : Bool) (x r : Reclaim)
          → b ≡ true
          → (if b then some x else none) ≡ some r
          → some x ≡ some r
      offered true x r h e = e
      offered false x r h e = cc

      not_offered :
          (b : Bool) (x r : Reclaim) → b ≡ false → (if b then some x else none) ≡ some r → ⊥
      not_offered true x r h e = cc
      not_offered false x r h e = cc

  answered-Lapsed :
      (caller : Option String) (id : String) (x : Result (Option TaskRecord) × World) (v : TaskView)
      (r : Reclaim)
      → (answered_to caller id x).0 ≡ ok (answer v)
      → v.reclaim ≡ some r
      → IsLapsed x.1.now v r
  unfolding ◌>>=◌ task_view
  answered-Lapsed caller id (err e, w) v r h f = cc
  answered-Lapsed caller id (ok none, w) v r h f = cc
  answered-Lapsed caller id (ok (some t), w) v r h f =
      let same_view : task_view escrow caller id w.now t ≡ v = cc in
      let (p, read, locked, late, agent) =
        reclaim-Lapsed id w.now (on_chain_view escrow id) r (ap (λ u. u.reclaim) same_view ∙ f) in
      record {
        on_chain = p;
        read = ap (λ u. u.on_chain) (sym same_view) ∙ read;
        locked = locked;
        late = late;
        agent = agent;
      }

  -- In every world, a refund is offered only for a task that the chain shows as funded and past its
  -- deadline when the answer is made, and as the act of the agent that the chain names.
  pub get_task_status-Lapsed :
      (caller : Option String) (id : String) (w : World) (v : TaskView) (r : Reclaim)
      → (get_task_status escrow caller id w).0 ≡ ok (answer v)
      → v.reclaim ≡ some r
      → IsLapsed (get_task_by_payment_id id w).1.now v r
  unfolding get_task_status attempt ◌>>=◌
  get_task_status-Lapsed caller id w v r h f =
      answered-Lapsed caller id (get_task_by_payment_id id w) v r h f
