-- ===== src/Sync/Mutex.antt =====
-- Conditions on the kernel objects of tew/api/kernel32_io.py, and how the steps of Sync/Steps bear on
-- them.
use tew.Base.{
  ℕ, ◌+◌, ◌<◌, leb, ◌==◌, ==_iff, ◌≡◌, refl, subst, Bool, true, false, Bool-cases, none, some,
  Option-cases, inl, inr, nat_key, All, All-put, All-pop, All-get, All-imp, arith,
}
use tew.State.{ObjectState, KernelHandle, MutexHandle, mutex, event}
use tew.Kernel.{set_object}
use tew.Sync.{is_ready, is_owner, acquire, reenter, release, add_object}
use tew.Sync.Steps.{
  IsConsistent, ObjectStep, Reach, here, next, reentered, acquired, marked, claimed, installed,
  duplicated, closed, released, taken,
}

-- Every handle names a place in use, and every object is consistent.
pub record ObjectsOk (s : ObjectState) : Type 0 where
  pub consistent : (r : ℕ) → IsConsistent (s.object r)
  pub in_use : All (λ e. e.1 < s.next_object) s.kernel_handle_map

acquire-IsConsistent : (tid : ℕ) (o : KernelHandle) → IsConsistent o → IsConsistent (acquire tid o)
unfolding acquire IsConsistent
acquire-IsConsistent tid (mutex m) h = (refl, omega arith)
acquire-IsConsistent tid (event e) h = elim (Bool-cases e.manual_reset) [
  | inl manual ↦ rw manual tt
  | inr auto ↦ rw auto tt
]

reenter-IsConsistent :
    (tid : ℕ) (o : KernelHandle) → is_owner tid o ≡ true → IsConsistent o → IsConsistent (reenter o)
unfolding reenter IsConsistent is_owner
reenter-IsConsistent tid (mutex m) own h = elim (Option-cases m.owner_tid) [
  | inl e ↦ ground (arith, e, own)
  | inr (o, e) ↦ rw e (
      let c : (m.locked ≡ true) × (0 < m.recursion_count) =
        subst
          (λ x. elim x [
            | none ↦ (m.locked ≡ false) × (m.recursion_count ≡ 0)
            | some o ↦ (m.locked ≡ true) × (0 < m.recursion_count)
          ])
          e h in
      (c.0, omega arith))
]
reenter-IsConsistent tid (event e) own h = tt

release-IsConsistent :
    (m : MutexHandle) → IsConsistent (mutex m) → IsConsistent (mutex ((release m).0))
unfolding release IsConsistent
release-IsConsistent m h = elim (Bool-cases (leb m.recursion_count 1)) [
  | inl last ↦ rw last (refl, refl)
  | inr more ↦ rw more (elim (Option-cases m.owner_tid) [
    | inl e ↦
        let c : (m.locked ≡ false) × (m.recursion_count ≡ 0) =
          subst
            (λ x. elim x [
              | none ↦ (m.locked ≡ false) × (m.recursion_count ≡ 0)
              | some o ↦ (m.locked ≡ true) × (0 < m.recursion_count)
            ])
            e h in
        ground (arith, c, more)
    | inr (o, e) ↦
        let c : (m.locked ≡ true) × (0 < m.recursion_count) =
          subst
            (λ x. elim x [
              | none ↦ (m.locked ≡ false) × (m.recursion_count ≡ 0)
              | some o ↦ (m.locked ≡ true) × (0 < m.recursion_count)
            ])
            e h in
        rw e (c.0, ground (arith, more))
  ])
]

set_object-Ok :
    (r : ℕ) (o : KernelHandle) (s : ObjectState)
    → IsConsistent o
    → ObjectsOk s
    → ObjectsOk (set_object r o s)
unfolding set_object
set_object-Ok r o s new v = record {
  consistent = λ q. elim (Bool-cases (q == r)) [
    | inl hit ↦ rw hit new
    | inr miss ↦ rw miss (v.consistent q)
  ];
  in_use = v.in_use;
}

add_object-Ok :
    (h : ℕ) (o : KernelHandle) (s : ObjectState)
    → IsConsistent o
    → ObjectsOk s
    → ObjectsOk (add_object h o s)
unfolding add_object
add_object-Ok h o s new v = record {
  consistent = λ q. elim (Bool-cases (q == s.next_object)) [
    | inl hit ↦ rw hit new
    | inr miss ↦ rw miss (v.consistent q)
  ];
  in_use =
      All-put (λ e. e.1 < s.next_object + 1) h (s.next_object) (s.kernel_handle_map) (omega arith)
        (All-imp _ _ (s.kernel_handle_map) (λ e lt. omega arith) (v.in_use));
}

step-ObjectsOk : {b : Bool} {s u : ObjectState} → ObjectStep b s u → ObjectsOk s → ObjectsOk u
step-ObjectsOk {s = s} (reentered tid r o at own) v =
    set_object-Ok r _ s (reenter-IsConsistent tid o own (subst IsConsistent at (v.consistent r))) v
step-ObjectsOk {s = s} (acquired tid r o at free) v =
    set_object-Ok r _ s (acquire-IsConsistent tid o (subst IsConsistent at (v.consistent r))) v
step-ObjectsOk {s = s} (marked signaled r e at) v =
    set_object-Ok r _ s (unfold IsConsistent in tt) v
step-ObjectsOk claimed v = record { consistent = v.consistent; in_use = v.in_use }
step-ObjectsOk {s = s} (installed h o new) v = add_object-Ok h o s new v
step-ObjectsOk {s = s} (duplicated h g r e) v = record {
  consistent = v.consistent;
  in_use =
      All-put (λ e. e.1 < s.next_object) g r (s.kernel_handle_map)
        (All-get (λ e. e.1 < s.next_object) h r (s.kernel_handle_map) (v.in_use) e) (v.in_use);
}
step-ObjectsOk {s = s} (closed h) v = record {
  consistent = v.consistent;
  in_use = All-pop (λ e. e.1 < s.next_object) h (s.kernel_handle_map) (v.in_use);
}
step-ObjectsOk {s = s} (released r m at) v =
    set_object-Ok r _ s (release-IsConsistent m (subst IsConsistent at (v.consistent r))) v
step-ObjectsOk {s = s} (taken tid r o at) v =
    set_object-Ok r _ s (acquire-IsConsistent tid o (subst IsConsistent at (v.consistent r))) v

-- However the objects were reached, the mutexes among them are consistent.
pub Reach-ObjectsOk : {b : Bool} {s u : ObjectState} → Reach b s u → ObjectsOk s → ObjectsOk u
Reach-ObjectsOk here v = v
Reach-ObjectsOk (next r st) v = step-ObjectsOk st (Reach-ObjectsOk r v)

-- The object at place `r` is a mutex that thread `tid` owns.
pub record HeldBy (r tid : ℕ) (s : ObjectState) : Type 0 where
  pub in_use : r < s.next_object
  pub owner : is_owner tid (s.object r) ≡ true

acquire-held :
    (tid by : ℕ) (o : KernelHandle)
    → is_ready o ≡ true
    → is_owner tid o ≡ true
    → is_owner tid (acquire by o) ≡ true
unfolding is_ready is_owner
acquire-held tid by (mutex m) free own = ground (arith, free, own)
acquire-held tid by (event e) free own = cc

reenter-held :
    (tid : ℕ) (o : KernelHandle) → is_owner tid o ≡ true → is_owner tid (reenter o) ≡ true
unfolding is_owner reenter
reenter-held tid (mutex m) own = own
reenter-held tid (event e) own = own

set_object-HeldBy :
    (r tid q : ℕ) (o : KernelHandle) (s : ObjectState)
    → (is_owner tid (s.object q) ≡ true → is_owner tid o ≡ true)
    → HeldBy r tid s
    → HeldBy r tid (set_object q o s)
unfolding set_object
set_object-HeldBy r tid q o s still v = record {
  in_use = v.in_use;
  owner = elim (Bool-cases (r == q)) [
    | inl hit ↦
        rw hit
          (still (subst (λ a. is_owner tid (s.object a) ≡ true) ((==_iff r q).0 hit) (v.owner)))
    | inr miss ↦ rw miss (v.owner)
  ];
}

step-HeldBy :
    (r tid : ℕ) {s u : ObjectState} → ObjectStep false s u → HeldBy r tid s → HeldBy r tid u
step-HeldBy r tid {s = s} (reentered by q o at own) v =
    set_object-HeldBy r tid q _ s
      (λ held. reenter-held tid o (subst (λ k. is_owner tid k ≡ true) at held)) v
step-HeldBy r tid {s = s} (acquired by q o at free) v =
    set_object-HeldBy r tid q _ s
      (λ held. acquire-held tid by o free (subst (λ k. is_owner tid k ≡ true) at held)) v
step-HeldBy r tid {s = s} (marked signaled q e at) v =
    set_object-HeldBy r tid q _ s
      (λ held. unfold is_owner in subst (λ k. is_owner tid k ≡ true) at held) v
step-HeldBy r tid claimed v = record { in_use = v.in_use; owner = v.owner }
step-HeldBy r tid {s = s} (installed h o new) v =
    unfold add_object in
    record {
      in_use = let lt = v.in_use in omega arith;
      owner = elim (Bool-cases (r == s.next_object)) [
        | inl hit ↦ ground (arith, (==_iff r (s.next_object)).0 hit, v.in_use)
        | inr miss ↦ rw miss (v.owner)
      ];
    }
step-HeldBy r tid (duplicated h g q e) v = record { in_use = v.in_use; owner = v.owner }
step-HeldBy r tid (closed h) v = record { in_use = v.in_use; owner = v.owner }

-- No handler that takes only these steps, whatever thread calls it, takes a mutex from its owner.
pub Reach-HeldBy :
    (r tid : ℕ) {s u : ObjectState} → Reach false s u → HeldBy r tid s → HeldBy r tid u
Reach-HeldBy r tid here v = v
Reach-HeldBy r tid (next p st) v = step-HeldBy r tid st (Reach-HeldBy r tid p v)
