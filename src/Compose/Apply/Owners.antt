-- ===== src/Compose/Apply/Owners.antt =====
-- The workloads that applyContainer writes belong to the project, also where they have changed between
-- its gets.
use docker_in_k8s.Common.{◌≡◌, refl, ◌∙◌, ap, true, Bool-cases, inl, inr, [], ◌∷◌}
use docker_in_k8s.Text.{Text, ◌==◌, eq_iff}
use docker_in_k8s.Dicts.{text_at, merge}
use docker_in_k8s.Result.{Result, Error, ok, err, is_not_found}
use docker_in_k8s.Api.Types.{ContainerSpec, project_label, managed_by_label, managed_by_value}
use docker_in_k8s.Api.Spec.{spec_map, set_spec}
use docker_in_k8s.Cli.Waits.Laws.{bind_reply-eq-ok, reply_of_pair}
use docker_in_k8s.Api.Platform.{Platform}
use docker_in_k8s.Api.Container.{DockerContainer, new_container}
use docker_in_k8s.Cluster.{Cluster}
use docker_in_k8s.Cluster.Calls.{Action}
use docker_in_k8s.Compose.Apply.{
  apply_container, write_container, update_container, replace_container,
}

module _ (c : Cluster) (namespace : Text) where
  -- An action that is tried again where it ends with a conflict: if it succeeds, its last try has.
  abbrev pub IsRetry : (Action c.State (Unit {0}) → Action c.State (Unit {0})) → Type 0
  IsRetry retry =
      (m : Action c.State (Unit {0})) (s s' : c.State)
      → retry m s ≡ (ok tt, s')
      → (t : c.State) × (m t ≡ (ok tt, s'))

  module _ (p : Platform) (retry : Action c.State (Unit {0}) → Action c.State (Unit {0}))
      (h : IsRetry retry) (name : Text) (desired : ContainerSpec) where
    abbrev pub IsOwn : DockerContainer → Type 0
    IsOwn existing = text_at project_label existing.labels ≡ text_at project_label desired.labels

    -- A get gave a workload of the project, and the update of this version with the spec was taken.
    abbrev pub Replaced : c.State → Type 0
    Replaced s' =
        (t t' : c.State) × (current sent updated : DockerContainer) × ((c.containers namespace).get
            name t
          ≡ (ok current, t'))
        × IsOwn current
        × ((c.containers namespace).update sent t' ≡ (ok updated, s'))
        × (sent.name ≡ current.name)
        × (sent.resource_version ≡ current.resource_version)
        × (sent.spec ≡ spec_map p.codecs desired)

    -- Behind the first get: where it found nothing a new workload was created, and else it found one
    -- of the project and one of the project was replaced.
    abbrev pub Written : Result DockerContainer → c.State → c.State → Type 0
    Written (err e) t s' =
        (is_not_found e ≡ true)
        × ((created : DockerContainer) × ((c.containers namespace).create
                (new_container (spec_map p.codecs) name namespace desired) t
              ≡ (ok created, s')))
    Written (ok existing) t s' = IsOwn existing × Replaced s'

    refused :
        {e : Error} {t s' : c.State}
        → ◌≡◌ {A = Result (Unit {0}) × c.State} (err e, t) (ok tt, s')
        → ⊥
    refused h = cc

    abbrev sent_for : DockerContainer → DockerContainer
    sent_for current =
        set_spec p.codecs
          (record current {
            labels =
                merge (merge current.labels ((managed_by_label, managed_by_value) ∷ []))
                  desired.labels;
          })
          desired

    replace_container-Replaced :
        (current : DockerContainer) (t t' s' : c.State)
        → (c.containers namespace).get name t ≡ (ok current, t')
        → replace_container c namespace p retry desired current t' ≡ (ok tt, s')
        → Replaced s'
    unfolding replace_container set_spec
    replace_container-Replaced current t t' s' got done =
        elim (Bool-cases
          (text_at project_label current.labels == text_at project_label desired.labels)) [
            | inr other ↦ absurd (refused (rw other at done))
            | inl own ↦
                let (updated, last, taken, same) =
                  bind_reply-eq-ok ((c.containers namespace).update (sent_for current) t') _
                    (rw own at done) in
                (
                  t,
                  t',
                  current,
                  sent_for current,
                  updated,
                  got,
                  (eq_iff _ _).0 own,
                  taken ∙ ap (λ (x : c.State). (ok updated, x)) (reply_of_pair same).1,
                  refl,
                  refl,
                  refl,
                )
          ]

    update_container-Replaced :
        (t s' : c.State)
        → update_container c namespace p retry name desired t ≡ (ok tt, s')
        → Replaced s'
    unfolding update_container
    update_container-Replaced t s' done =
        let (current, t', got, rest) =
          bind_reply-eq-ok ((c.containers namespace).get name t)
            (replace_container c namespace p retry desired) done in
        replace_container-Replaced current t t' s' got rest

    write_container-Written :
        (reply : Result DockerContainer) (t s' : c.State)
        → write_container c namespace p retry name desired reply t ≡ (ok tt, s')
        → Written reply t s'
    unfolding write_container
    write_container-Written (err e) t s' done = elim (Bool-cases (is_not_found e)) [
      | inr other ↦ absurd (refused (rw other at done))
      | inl missing ↦
          let (created, last, taken, same) =
            bind_reply-eq-ok
              ((c.containers namespace).create
                (new_container (spec_map p.codecs) name namespace desired) t)
              _ (rw missing at done) in
          (missing, (created, taken ∙ ap (λ (x : c.State). (ok created, x)) (reply_of_pair same).1))
    ]
    write_container-Written (ok existing) t s' done =
        elim (Bool-cases
          (text_at project_label existing.labels == text_at project_label desired.labels)) [
            | inr other ↦ absurd (refused (rw other at done))
            | inl own ↦
                let (t', tried) =
                  h (update_container c namespace p retry name desired) t s' (rw own at done) in
                ((eq_iff _ _).0 own, update_container-Replaced t' s' tried)
          ]

    -- If applyContainer succeeds, either its first get found nothing and the workload was
    -- created, or that get gave a workload of the project and a later one, just before the
    -- update, gave one of the project too, of which this version was updated with the spec; a
    -- retry is one whose success is that of its last try.
    pub apply_container-Written :
        (s s' : c.State)
        → apply_container c namespace p retry name desired s ≡ (ok tt, s')
        → (reply : Result DockerContainer) × (t : c.State) × ((c.containers namespace).get name s
            ≡ (reply, t))
          × Written reply t s'
    unfolding apply_container
    apply_container-Written s s' done =
        let (reply, t) = (c.containers namespace).get name s in
        (reply, t, refl, write_container-Written reply t s' done)
