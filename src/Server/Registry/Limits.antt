-- ===== src/Server/Registry/Limits.antt =====
-- When `create` succeeds, and how many instances there can be.
use vscreen.Base.Assoc
use vscreen.Base.Assoc.{get, get-insert, length-remove, insert}
use vscreen.Base.{
  Bool, Bool-cases, List, Option, Option-cases, String, [], ap, ap₂, arith, false, if◌then◌else◌,
  inl, inr, leb, length, none, not, not_leb, refl, some, true, ℕ, ◌+◌, ◌==◌, ◌∙◌, ◌∷◌, ◌≡◌, ◌≤◌,
  nat_eq, string_eq,
}
use vscreen.Core.Instance.{InstanceConfig, is_url_safe}
use vscreen.Server.Registry.{
  InstanceEntry, InstanceRegistry, Outcome, admit, create, insert_vacant, instance_already_exists,
  invalid_config, limit_exceeded, new_entry, ok, remove_instance, proceed,
}

length-insert_absent :
    (id : String) (entry : InstanceEntry) (m : InstanceRegistry)
    → get id m ≡ none
    → length (Assoc.insert id entry m) ≡ length m + 1
length-insert_absent id entry [] h = omega arith
length-insert_absent id entry ((j, e) ∷ m) h = elim (Bool-cases (j == id)) [
  | inl hit ↦ absurd (ground (arith, h, hit))
  | inr miss ↦ rw miss (omega (arith, length-insert_absent id entry m (ground (arith, h, miss))))
]

-- What `create` is to do, by the three conditions.
abbrev pub Creates :
    Bool
    → Bool
    → Option InstanceEntry
    → InstanceRegistry
    → InstanceConfig
    → InstanceRegistry × Outcome
    → Type 0
Creates false is_full found m config r = r ≡ (m, invalid_config)
Creates true true found m config r = r ≡ (m, limit_exceeded)
Creates true false (some entry) m config r = r ≡ (m, instance_already_exists)
Creates true false none m config r =
    (r.1 ≡ ok (new_entry config))
    × ((id : String)
        → get id r.0 ≡ (if config.instance_id == id then some (new_entry config) else get id m))
    × (length r.0 ≡ length m + 1)

insert_vacant-Creates :
    (m : InstanceRegistry) (config : InstanceConfig) (o : Option InstanceEntry)
    → get config.instance_id m ≡ o
    → Creates true false o m config (insert_vacant m config)
unfolding insert_vacant
insert_vacant-Creates m config none e =
    rw (e, insert_vacant)
      (
        refl,
        λ id. get-insert config.instance_id id (new_entry config) m,
        length-insert_absent config.instance_id (new_entry config) m e,
      )
insert_vacant-Creates m config (some entry) e = rw (e, insert_vacant) refl

-- The outcome of the tests, by the two conditions.
abbrev tested : Bool → Bool → Option Outcome
tested false is_full = some invalid_config
tested true true = some limit_exceeded
tested true false = none

admit-tested :
    (utf8 : String → List ℕ) (m : InstanceRegistry) (config : InstanceConfig) (n : ℕ)
    → admit utf8 m config n ≡ tested (is_url_safe (utf8 config.instance_id)) (leb n (length m))
unfolding admit
admit-tested utf8 m config n = by_cases (is_url_safe (utf8 config.instance_id)) (leb n (length m))
  where
    by_cases :
        (a b : Bool)
        → (if not a then some invalid_config else if b then some limit_exceeded else none)
          ≡ tested a b
    by_cases true true = refl
    by_cases true false = refl
    by_cases false b = refl

proceed-Creates :
    (a b : Bool) (m : InstanceRegistry) (config : InstanceConfig)
    → Creates a b (get config.instance_id m) m config (proceed m config (tested a b))
proceed-Creates false b m config = refl
proceed-Creates true true m config = refl
proceed-Creates true false m config = insert_vacant-Creates m config (get config.instance_id m) refl

-- `create` refuses an ID that is not safe in URLs, then a registry that has `max_instances`
-- entries, then an ID that is there, in this order, and a refusal changes nothing. Else it
-- succeeds: the ID is found with the new entry, each other ID as before, and there is one
-- instance more.
create-Creates :
    (utf8 : String → List ℕ) (m : InstanceRegistry) (config : InstanceConfig) (max_instances : ℕ)
    → Creates
        (is_url_safe (utf8 config.instance_id))
        (leb max_instances (length m))
        (get config.instance_id m)
        m
        config
        (create utf8 m config max_instances)
unfolding create
create-Creates utf8 m config n =
    rw (admit-tested utf8 m config n)
      (proceed-Creates (is_url_safe (utf8 config.instance_id)) (leb n (length m)) m config)

-- Calls one after the other.
pub data Call : Type 0 where
  creates : InstanceConfig → Call
  removes : String → Call

unfoldable pub run : (String → List ℕ) → ℕ → InstanceRegistry → List Call → InstanceRegistry
unfolding create remove_instance
run utf8 n m [] = m
run utf8 n m (creates config ∷ calls) = run utf8 n (create utf8 m config n).0 calls
run utf8 n m (removes id ∷ calls) = run utf8 n (remove_instance m id).0 calls

length-Creates :
    (a b : Bool) (n : ℕ) (o : Option InstanceEntry) (m : InstanceRegistry) (config : InstanceConfig)
    (r : InstanceRegistry × Outcome)
    → leb n (length m) ≡ b
    → length m ≤ n
    → Creates a b o m config r
    → length r.0 ≤ n
length-Creates false b n o m config r e h c = rw (ap (λ x. length x.0) c) h
length-Creates true true n o m config r e h c = rw (ap (λ x. length x.0) c) h
length-Creates true false n (some entry) m config r e h c = rw (ap (λ x. length x.0) c) h
length-Creates true false n none m config r e h c = omega (arith, c.2, not_leb n (length m) e)

length-create :
    (utf8 : String → List ℕ) (m : InstanceRegistry) (config : InstanceConfig) (n : ℕ)
    → length m ≤ n
    → length (create utf8 m config n).0 ≤ n
length-create utf8 m config n h =
    length-Creates (is_url_safe (utf8 config.instance_id)) (leb n (length m)) n
      (get config.instance_id m) m config (create utf8 m config n) refl h
      (create-Creates utf8 m config n)

length-remove_instance :
    (m : InstanceRegistry) (id : String) → length (remove_instance m id).0 ≤ length m
unfolding remove_instance
length-remove_instance m id = elim (Option-cases (get id m)) [
  | inl e ↦ rw (remove_instance, e) (omega arith)
  | inr e ↦ rw (remove_instance, e.1) (length-remove id m)
]

length-run_from :
    (utf8 : String → List ℕ) (n : ℕ) (m : InstanceRegistry) (calls : List Call)
    → length m ≤ n
    → length (run utf8 n m calls) ≤ n
unfolding run
length-run_from utf8 n m [] h = h
length-run_from utf8 n m (creates config ∷ calls) h =
    length-run_from utf8 n (create utf8 m config n).0 calls (length-create utf8 m config n h)
length-run_from utf8 n m (removes id ∷ calls) h =
    length-run_from utf8 n (remove_instance m id).0 calls
      (omega (arith, length-remove_instance m id))

-- After any creations and removals, one after the other, on a new registry, with whatever IDs,
-- there are never more than `max_instances` instances.
length-run :
    (utf8 : String → List ℕ) (max_instances : ℕ) (calls : List Call)
    → length (run utf8 max_instances [] calls) ≤ max_instances
length-run utf8 n calls = length-run_from utf8 n [] calls (omega arith)

-- Two creations of different new IDs, safe in URLs, that overlap: with room for one instance more,
-- both pass the tests before either inserts, both insertions succeed, and there is one instance
-- more than the limit allows.
admit-over_limit :
    (utf8 : String → List ℕ) (m : InstanceRegistry) (a b : InstanceConfig) (max_instances : ℕ)
    → is_url_safe (utf8 a.instance_id) ≡ true
    → is_url_safe (utf8 b.instance_id) ≡ true
    → get a.instance_id m ≡ none
    → get b.instance_id m ≡ none
    → (a.instance_id == b.instance_id) ≡ false
    → length m + 1 ≡ max_instances
    → let first = insert_vacant m a in
      let second = insert_vacant first.0 b in
      (admit utf8 m a max_instances ≡ none)
      × (admit utf8 m b max_instances ≡ none)
      × (first.1 ≡ ok (new_entry a))
      × (second.1 ≡ ok (new_entry b))
      × (length second.0 ≡ max_instances + 1)
admit-over_limit utf8 m a b n sa sb fa fb ne room =
    let has_room : leb n (length m) ≡ false = ground arith in
    let first = insert_vacant-Creates m a none fa in
    let still : (if a.instance_id == b.instance_id then some (new_entry a) else get b.instance_id m)
        ≡ none =
      rw ne fb in
    let second =
      insert_vacant-Creates (insert_vacant m a).0 b none (first.1 b.instance_id ∙ still) in
    (
      admit-tested utf8 m a n ∙ ap₂ tested sa has_room,
      admit-tested utf8 m b n ∙ ap₂ tested sb has_room,
      first.0,
      second.0,
      omega (arith, first.2, second.2),
    )
