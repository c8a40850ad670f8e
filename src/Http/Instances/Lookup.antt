-- ===== src/Http/Instances/Lookup.antt =====
-- What a client sees of an instance through the handlers, from its creation to its deletion.
use vscreen.Base.Text.{text_eq}
use vscreen.Base.{
  Bool, List, String, ap, arith, at_option, false, if◌then◌else◌, none, refl, some, true, ℕ, ◌∙◌,
  ◌≡◌, nat_eq, string_eq,
}
use vscreen.Base.Assoc.{get, get-insert, get-remove, eq_refl, insert, remove}
use vscreen.Core.Errors.{api_error}
use vscreen.Core.Instance.{InstanceConfig, created, is_running}
use vscreen.Server.Registry.{
  create, insert_vacant, InstanceRegistry, Outcome, admit, new_entry, proceed, remove_instance,
  InstanceEntry,
}
use vscreen.Http.State.{AppState, answer, empty, instance_state, instance_created}
use vscreen.Http.Instances.{
  create_instance, delete_instance, instance_health, or_error, registry_error,
}

module _ {F : Type 0} (utf8 : String → List ℕ) (state : AppState F) (body : InstanceConfig) where
  -- What a creation that is answered with 201 leaves in the registry.
  abbrev Made : InstanceRegistry × Outcome → Type 0
  Made out =
      (or_error (registry_error state.max_instances body.instance_id out.1)
          (answer 201 (instance_created body.instance_id))).status
        ≡ 201
      → out.0 ≡ insert body.instance_id (new_entry body) state.registry

  vacant : Made (insert_vacant state.registry body)
  unfolding insert_vacant api_error
  vacant =
      at_option Made (get body.instance_id state.registry) (λ _ h. refl) (λ entry _ h. ground arith)

  admitted :
      (unsafe full : Bool)
      → Made (
          proceed state.registry body (
            if unsafe
            then some Outcome.invalid_config
            else if full
            then some Outcome.limit_exceeded
            else none))
  unfolding api_error
  admitted true full h = ground arith
  admitted false true h = ground arith
  admitted false false h = vacant h

  create_instance-registry :
      (create_instance utf8 state body).1.status ≡ 201
      → (create_instance utf8 state body).0.registry
        ≡ insert body.instance_id (new_entry body) state.registry
  unfolding create_instance create admit
  create_instance-registry h = admitted _ _ h

  registered :
      (st : AppState F) (id : String) (entry : InstanceEntry)
      → get id st.registry ≡ some entry
      → (instance_health st id
          ≡ answer 200 (instance_state id entry.state (is_running entry.state)))
        × ((delete_instance st id).1 ≡ answer 204 empty)
        × ((delete_instance st id).0.registry ≡ remove id st.registry)
  unfolding instance_health is_running delete_instance remove_instance
  registered st id entry e = (
    rw (e, instance_health) refl,
    rw (e, delete_instance) refl,
    rw (e, delete_instance) (rw (e, remove_instance) refl),
  )

  unregistered :
      (st : AppState F) (id : String)
      → get id st.registry ≡ none
      → ((instance_health st id).status ≡ 404) × ((delete_instance st id).1.status ≡ 404)
  unfolding api_error instance_health delete_instance
  unregistered st id e = (rw (e, instance_health) refl, rw (e, delete_instance) refl)

  -- An instance whose creation is answered with 201 is there afterwards: its state is answered with
  -- 200, as created and not healthy; and deleting it is answered with 204, after which its state
  -- and a second deletion are answered with 404.
  pub create_instance-delete_instance :
      let id = body.instance_id in
      let (made, answered) = create_instance utf8 state body in
      let (left, deleted, ended) = delete_instance made id in
      answered.status ≡ 201
      → (instance_health made id ≡ answer 200 (instance_state id created false))
        × (deleted ≡ answer 204 empty)
        × ((instance_health left id).status ≡ 404)
        × ((delete_instance left id).1.status ≡ 404)
  unfolding is_running
  create_instance-delete_instance h =
      let found = registered made id (new_entry body) there in
      let lost = unregistered (delete_instance made id).0 id (ap (get id) found.2 ∙ gone) in
      (found.0, found.1, lost.0, lost.1)
    where
      id : String
      id = body.instance_id

      made : AppState F
      made = (create_instance utf8 state body).0

      there : get id made.registry ≡ some (new_entry body)
      there =
          ap (get id) (create_instance-registry h)
          ∙ get-insert id id (new_entry body) state.registry
          ∙ ap (λ b. if b then some (new_entry body) else get id state.registry)
              (eq_refl {K = String} id)

      gone : get id (remove id made.registry) ≡ none
      gone = rw (get-remove id id made.registry, eq_refl {K = String} id) refl
