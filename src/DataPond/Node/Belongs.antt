-- ===== src/DataPond/Node/Belongs.antt =====
-- The programs that a node runs for a volume are given parts of that volume only.
use eecs_k8s.Prelude.{
  String, str_eq, eq_iff, ◌≡◌, refl, Option, none, some, List, [], ◌∷◌, All, Bool-cases, inl, inr,
}
use eecs_k8s.Prelude.Panic.{Result}
use eecs_k8s.Prelude.Panic as Panic
use eecs_k8s.Prelude.Flow.{Outcome, ok, returned, failed, ◌>>◌, call, All-bind}
use eecs_k8s.DataPond.Types.{Status, VolumeOptions, VolumeBindingContext}
use eecs_k8s.DataPond.Server.{Programs}
use eecs_k8s.DataPond.Context.{NodeDriver, parse_context, node_options}
use eecs_k8s.Prelude.Flow.{◌>>◌}
use eecs_k8s.DataPond.Node.{
  NodePublishVolumeRequest, Run, allocated, published, unpublished, NodeFlow, attempt,
  allocate_binding, allocate_bindings, handle_node_publish,
}

-- The binding is of the volume, and of the device that comes with it.
abbrev pub IsPartOf : String → VolumeBindingContext → Type 0
IsPartOf volume_id b = (b.metadata.volume_id ≡ volume_id) × (b.metadata.device_id ≡ b.device.id)

abbrev pub Belongs : String → Run → Type 0
Belongs volume_id (allocated c) = IsPartOf volume_id c.binding
Belongs volume_id (published c) =
    (c.volume_id ≡ volume_id) × All (IsPartOf volume_id) c.controller.bindings
Belongs volume_id (unpublished c) = c.volume_id ≡ volume_id

both_ok : (m n : NodeFlow (Unit {0})) → (m >> n).0 ≡ ok tt → (m.0 ≡ ok tt) × (n.0 ≡ ok tt)
both_ok (ok a, t) n h = (refl, h)
both_ok (returned r, t) n h = cc
both_ok (failed e, t) n h = cc

module _ (programs : Programs) (driver : NodeDriver) (options : VolumeOptions) (id : String) where
  call-Belongs :
      (ev : Run) (e : Option Status) → Belongs id ev → All (Belongs id) (call {R = Unit} ev e).1
  call-Belongs ev none h = (h, tt)
  call-Belongs ev (some e) h = tt

  binding-Belongs :
      (b : VolumeBindingContext)
      → All (Belongs id) (allocate_binding programs driver options id b).1
  unfolding allocate_binding
  binding-Belongs b = elim (Bool-cases (str_eq b.metadata.device_id b.device.id)) [
    | inl d ↦ elim (Bool-cases (str_eq b.metadata.volume_id id)) [
      | inl v ↦
          rw (d, v)
            (call-Belongs _ _
              ((eq_iff b.metadata.volume_id id).0 v, (eq_iff b.metadata.device_id b.device.id).0 d))
      | inr v ↦ rw (d, v) tt
    ]
    | inr d ↦ rw d tt
  ]

  binding-IsPartOf :
      (b : VolumeBindingContext)
      → (allocate_binding programs driver options id b).0 ≡ ok tt
      → IsPartOf id b
  unfolding allocate_binding
  binding-IsPartOf b h = elim (Bool-cases (str_eq b.metadata.device_id b.device.id)) [
    | inl d ↦ elim (Bool-cases (str_eq b.metadata.volume_id id)) [
      | inl v ↦
          ((eq_iff b.metadata.volume_id id).0 v, (eq_iff b.metadata.device_id b.device.id).0 d)
      | inr v ↦ absurd (refused (rw (d, v) at h))
    ]
    | inr d ↦ absurd (refused (rw d at h))
  ]
    where
      refused : {e : Status} → ◌≡◌ {A = Outcome Status Unit (Unit {0})} (failed e) (ok tt) → ⊥
      refused h = cc

  bindings-Belongs :
      (bs : List VolumeBindingContext)
      → All (Belongs id) (allocate_bindings programs driver options id bs).1
  unfolding allocate_bindings
  bindings-Belongs [] = tt
  bindings-Belongs (b ∷ bs) =
      All-bind (Belongs id) _ _ (binding-Belongs b) (λ _ _. bindings-Belongs bs)

  bindings-IsPartOf :
      (bs : List VolumeBindingContext)
      → (allocate_bindings programs driver options id bs).0 ≡ ok tt
      → All (IsPartOf id) bs
  unfolding allocate_bindings
  bindings-IsPartOf [] h = tt
  bindings-IsPartOf (b ∷ bs) h =
      let (one, more) = both_ok (allocate_binding programs driver options id b) _ h in
      (binding-IsPartOf b one, bindings-IsPartOf bs more)

attempt_quiet : {A : Type 0} (P : Run → Type 0) (r : Result Status A) → All P (attempt r).1
attempt_quiet P (Panic.ok a) = tt
attempt_quiet P (Panic.err e) = tt
attempt_quiet P Panic.panic = tt

-- Whatever the programs answer, each that a node runs to stage or publish a volume is given only
-- bindings of that volume, each with the device that the binding names; the program that publishes
-- is run after the bindings have all been checked.
pub handle_node_publish-Belongs :
    (programs : Programs) (driver : NodeDriver) (kind : String) (r : NodePublishVolumeRequest)
    → All (Belongs r.volume_id) (handle_node_publish programs driver kind r).1
unfolding handle_node_publish
handle_node_publish-Belongs programs driver kind r =
    let P = Belongs r.volume_id in
    let id = r.volume_id in
    let read = parse_context driver r.publish_context in
    All-bind P (attempt (node_options driver r.volume_capability)) _ (attempt_quiet P _)
      λ options _. All-bind P (attempt read) _ (attempt_quiet P read) λ controller _.
        let bs = controller.bindings in
        All-bind P (allocate_bindings programs driver options id bs) _
          (bindings-Belongs programs driver options id bs)
          λ _ e.
            call-Belongs programs driver options id _ _
              (refl, bindings-IsPartOf programs driver options id bs e)
