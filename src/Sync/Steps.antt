-- ===== src/Sync/Steps.antt =====
-- The changes of kernel objects as a step relation, and the waits and signals of
-- tew/api/kernel32_io.py as sequences of such steps.
use tew.Base.{
  ℕ, ◌+◌, ◌<◌, ◌≡◌, Bool, true, false, Option, none, some, List, get, put, pop, nat_key, arith,
}
use tew.State.{CrtState, ObjectState, KernelHandle, MutexHandle, EventHandle, mutex, event}
use tew.State.Native.{Native}
use tew.Machine.{Action, put_objects}
use tew.Machine.Keeps.{
  Keeps, Keeps-bind, Keeps-if, Keeps-on_option, Keeps-with_state, Keeps-arg, Keeps-get_native,
  Keeps-get_cpu, Keeps-current_thread_id, keeps_rules,
}
use tew.Kernel.{set_object, object_at, block_current_on_handles, tick}
use tew.Kernel.Keeps.{Unmoved, block_current_on_handles-Keeps, tick-Keeps}
use tew.Sync.{
  is_ready, is_owner, acquire, reenter, release, add_object, mark_event, mark_handle, set_event,
  reset_event,
}
use tew.Sync.Wait.{suspend, block_until, wait_on, wait_for_single}

-- A mutex is locked, and counted at least once, exactly when it has an owner.
unfoldable pub IsConsistent : KernelHandle → Type 0
IsConsistent (mutex m) = elim m.owner_tid [
  | none ↦ (m.locked ≡ false) × (m.recursion_count ≡ 0)
  | some o ↦ (m.locked ≡ true) × (0 < m.recursion_count)
]
IsConsistent (event e) = Unit

-- `true` allows a release and a wait that takes objects one after the other.
pub data ObjectStep : Bool → ObjectState → ObjectState → Type 0 where
  reentered :
      {b : Bool} {s : ObjectState} (tid r : ℕ) (o : KernelHandle)
      → s.object r ≡ o
      → is_owner tid o ≡ true
      → ObjectStep b s (set_object r (reenter o) s)
  acquired :
      {b : Bool} {s : ObjectState} (tid r : ℕ) (o : KernelHandle)
      → s.object r ≡ o
      → is_ready o ≡ true
      → ObjectStep b s (set_object r (acquire tid o) s)
  marked :
      {b : Bool} {s : ObjectState} (signaled : Bool) (r : ℕ) (e : EventHandle)
      → s.object r ≡ event e
      → ObjectStep b s (set_object r (event (record e { signaled = signaled })) s)
  claimed :
      {b : Bool} {s : ObjectState}
      → ObjectStep b s (record s { next_kernel_handle = s.next_kernel_handle + 1 })
  installed :
      {b : Bool} {s : ObjectState} (h : ℕ) (o : KernelHandle)
      → IsConsistent o
      → ObjectStep b s (add_object h o s)
  duplicated :
      {b : Bool} {s : ObjectState} (h g r : ℕ)
      → get h s.kernel_handle_map ≡ some r
      → ObjectStep b s (record s { kernel_handle_map = put g r s.kernel_handle_map })
  closed :
      {b : Bool} {s : ObjectState} (h : ℕ)
      → ObjectStep b s (record s { kernel_handle_map = pop h s.kernel_handle_map })
  released :
      {s : ObjectState} (r : ℕ) (m : MutexHandle)
      → s.object r ≡ mutex m
      → ObjectStep true s (set_object r (mutex ((release m).0)) s)
  taken :
      {s : ObjectState} (tid r : ℕ) (o : KernelHandle)
      → s.object r ≡ o
      → ObjectStep true s (set_object r (acquire tid o) s)

pub data Reach (b : Bool) (s : ObjectState) : ObjectState → Type 0 where
  here : Reach b s s
  next : {t u : ObjectState} → Reach b s t → ObjectStep b t u → Reach b s u

-- The object part of the state comes from `o` by such steps.
abbrev pub From : Bool → ObjectState → CrtState → Type 0
From b o s = Reach b o s.objects

pub object_at-eq :
    (h r : ℕ) (o : KernelHandle) (s : ObjectState)
    → object_at h s ≡ some (r, o)
    → (get h s.kernel_handle_map ≡ some r) × (s.object r ≡ o)
unfolding object_at
object_at-eq h r o s e = ground arith

unmoved : {b : Bool} {o : ObjectState} → Unmoved (From b o)
unmoved = record {
  by_windows = λ s v h. h;
  by_kernel = λ s k h. h;
  by_signal = λ s r e at h. next h (marked true r e at);
}

module _ {N : Type 0} ⦃lib : Native N⦄ {b : Bool} {o : ObjectState} where
  pub put_objects-Steps :
      (s v : ObjectState)
      → Reach b o s
      → ObjectStep b s v
      → Keeps (From b o) (put_objects {N = N} v)
  unfolding put_objects
  put_objects-Steps s v r st = record { at = λ w h. next r st }

  -- Polling the sockets may signal events, and changes no other object.
  pub tick-Steps : Keeps (From b o) (tick {N = N})
  tick-Steps = tick-Keeps unmoved

  block-Steps :
      (handles : List ℕ) (retry_eip : ℕ) (deadline : Option ℕ)
      → Keeps (From b o) (block_current_on_handles {N = N} handles retry_eip deadline)
  block-Steps = block_current_on_handles-Keeps unmoved

  block_until-Steps :
      (m : Action N (List ℕ)) (timeout : ℕ)
      → Keeps (From b o) m
      → Keeps (From b o) (block_until m timeout)
  unfolding block_until
  block_until-Steps m timeout km =
      Keeps-bind _ _ Keeps-get_native
        λ n. Keeps-bind _ _ Keeps-get_cpu λ c. Keeps-bind _ _ km λ handles. block-Steps handles _ _

  pub suspend-Steps :
      (m : Action N (List ℕ)) (timeout n : ℕ)
      → Keeps (From b o) m
      → Keeps (From b o) (suspend m timeout n)
  unfolding suspend
  suspend-Steps m timeout n km =
      let blocked : Keeps (From b o) (block_until m timeout) = block_until-Steps m timeout km in
      search keeps_rules depth 9

  wait_on-Steps :
      (timeout tid h r : ℕ) (k : KernelHandle) (s : ObjectState)
      → Reach b o s
      → s.object r ≡ k
      → Keeps (From b o) (wait_on {N = N} timeout tid h r k s)
  unfolding wait_on
  wait_on-Steps timeout tid h r k s from at =
      Keeps-if _ _ _
        (λ own.
          Keeps-bind _ _ (put_objects-Steps s _ from (reentered tid r k at own))
            λ _. search keeps_rules)
        (λ _.
          Keeps-if _ _ _
            (λ free.
              Keeps-bind _ _ (put_objects-Steps s _ from (acquired tid r k at free))
                λ _. search keeps_rules)
            (λ _. suspend-Steps _ timeout 8 (search keeps_rules)))

  pub wait_for_single-Steps : Keeps (From b o) (wait_for_single {N = N})
  unfolding wait_for_single
  wait_for_single-Steps = Keeps-bind _ _ (Keeps-arg 4) λ h. Keeps-bind _ _ (Keeps-arg 8) λ timeout.
      Keeps-with_state _ λ s from.
        Keeps-on_option _ _ _ (λ _. search keeps_rules)
          λ found e. Keeps-bind _ _ Keeps-current_thread_id λ tid.
            wait_on-Steps timeout tid h (found.0) (found.1) (s.objects) from
              (object_at-eq h (found.0) (found.1) (s.objects) e).1

  mark_event-Steps :
      (v : Bool) (h r : ℕ) (k : KernelHandle) (s : ObjectState)
      → Reach b o s
      → s.object r ≡ k
      → Keeps (From b o) (mark_event {N = N} v h r k s)
  unfolding mark_event
  mark_event-Steps v h r (mutex m) s from at = search keeps_rules
  mark_event-Steps v h r (event e) s from at =
      Keeps-bind _ _ (put_objects-Steps s _ from (marked v r e at)) λ _. search keeps_rules

  mark_handle-Steps : (v : Bool) → Keeps (From b o) (mark_handle {N = N} v)
  unfolding mark_handle
  mark_handle-Steps v = Keeps-bind _ _ (Keeps-arg 4) λ h. Keeps-with_state _ λ s from.
      Keeps-bind _ _
        (Keeps-on_option _ _ _ (λ _. search keeps_rules)
          λ found e.
            mark_event-Steps v h (found.0) (found.1) (s.objects) from
              (object_at-eq h (found.0) (found.1) (s.objects) e).1)
        λ _. search keeps_rules

  pub set_event-Steps : Keeps (From b o) (set_event {N = N})
  unfolding set_event
  set_event-Steps = mark_handle-Steps true

  pub reset_event-Steps : Keeps (From b o) (reset_event {N = N})
  unfolding reset_event
  reset_event-Steps = mark_handle-Steps false
