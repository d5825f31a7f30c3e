-- ===== src/Public/Adoption.antt =====
-- ensureExists of internal/controller/publicresource/controller.go and the rollback in its
-- createResource.
use pangolin_operator.Base.{some, List, [], ◌∷◌, ◌≡◌, ◌≢◌, ◌⊎◌, inl, inr, arith, true, false}
use pangolin_operator.Base.Errors.{Error}
use pangolin_operator.Base.Exec.{ok, err, Result-cases}
use pangolin_operator.Base.Int.{ℤ, pos, ==ℤ_iff}
use pangolin_operator.Pangolin.Api.{list_resources, delete_resource}
use pangolin_operator.Pangolin.Requests.{ResourceItem, CreateResourceResponse}
use pangolin_operator.Types.Meta.{creating}
use pangolin_operator.Types.Public.{PublicResource, PublicResourceStatus}
use pangolin_operator.Public.Create.{ensure_exists, adopt_or_create, persist_or_roll_back}
use pangolin_operator.Public.Env.{Env, State, api, patch_object, patch_status}
use pangolin_operator.Public.Requests.{find_resource, still_listed}

-- Where Pangolin's list names the object's id, ensureExists answers "not adopted" and changes
-- nothing: its one call is the list.
pub ensure_exists_listed :
    (env : Env) (site_id : ℤ) (s : State) (items : List ResourceItem)
    → env.pangolin.list_resources s.log s.res.spec.name ≡ ok items
    → s.res.status.resource_id ≢ pos 0
    → still_listed s.res.status.resource_id items ≡ true
    → ensure_exists env site_id s
      ≡ (ok false, record s { log = api (list_resources s.res.spec.name) ∷ s.log })
unfolding ensure_exists
ensure_exists_listed env site_id s items h ne listed =
    ground (arith, ==ℤ_iff s.res.status.resource_id (pos 0))

-- The status of an object that adopts an item: the item's ids, and no targets or rules taken over.
abbrev pub adopted_status : ResourceItem → PublicResourceStatus → PublicResourceStatus
adopted_status item st = record st {
  resource_id = item.resource_id;
  nice_id = item.nice_id;
  full_domain = item.full_domain;
  phase = creating;
  targets_hash = [];
  rules_hash = [];
  target_ids = [];
  rule_ids = [];
}

-- Where the list does not name the object's id but holds an item that findResource finds,
-- ensureExists creates nothing: its second and last call is the patch that stores the item's ids with
-- an empty hash of targets and rules, and it answers "adopted" where the patch is accepted and the
-- patch's error where it is refused.
pub ensure_exists_adopts :
    (env : Env) (site_id : ℤ) (s : State) (items : List ResourceItem) (item : ResourceItem)
    → env.pangolin.list_resources s.log s.res.spec.name ≡ ok items
    → (s.res.status.resource_id ≡ pos 0) ⊎ (still_listed s.res.status.resource_id items ≡ false)
    → find_resource items s.res.spec ≡ some item
    → ((ensure_exists env site_id s).1.log
        ≡ patch_object s.res (record s.res { status = adopted_status item s.res.status })
          ∷ api (list_resources s.res.spec.name)
          ∷ s.log)
      × (((answer : PublicResource) × (env.patch
                (api (list_resources s.res.spec.name) ∷ s.log)
                s.res
                (record s.res { status = adopted_status item s.res.status })
              ≡ ok answer)
            × ((ensure_exists env site_id s).0 ≡ ok true))
          ⊎ ((e : Error) × (env.patch
                  (api (list_resources s.res.spec.name) ∷ s.log)
                  s.res
                  (record s.res { status = adopted_status item s.res.status })
                ≡ err e)
              × ((ensure_exists env site_id s).0 ≡ err e)))
unfolding ensure_exists adopt_or_create patch_status
ensure_exists_adopts env site_id s items item h gone found = (
  ground (arith, ==ℤ_iff s.res.status.resource_id (pos 0)),
  elim (Result-cases (
      env.patch (api (list_resources s.res.spec.name) ∷ s.log) s.res
        (record s.res { status = adopted_status item s.res.status }))) [
          | inl (answer, e) ↦
              inl (answer, e, ground (arith, ==ℤ_iff s.res.status.resource_id (pos 0)))
          | inr (failure, e) ↦
              inr (failure, e, ground (arith, ==ℤ_iff s.res.status.resource_id (pos 0)))
        ],
)

-- The status that stores the ids of a created resource.
abbrev pub created_status : CreateResourceResponse → PublicResourceStatus → PublicResourceStatus
created_status created st = record st {
  resource_id = created.resource_id;
  nice_id = created.nice_id;
  full_domain = created.full_domain;
  phase = creating;
}

-- Behind the creation of a resource, either the patch that stores its id is accepted, and nothing
-- else is called, or it is refused, and then the next call deletes the created resource and the
-- patch's error is returned, whatever the deletion answers.
pub persist_or_roll_back_lem :
    (env : Env) (created : CreateResourceResponse) (s : State)
    → ((answer : PublicResource) × (env.patch s.log s.res
            (record s.res { status = created_status created s.res.status })
          ≡ ok answer)
        × (persist_or_roll_back env created s ≡ (
          ok tt,
          record {
            res = answer;
            log =
                patch_object s.res (record s.res { status = created_status created s.res.status })
                ∷ s.log;
          },
        )))
      ⊎ ((e : Error) × (env.patch s.log s.res
              (record s.res { status = created_status created s.res.status })
            ≡ err e)
          × ((persist_or_roll_back env created s).0 ≡ err e)
          × ((persist_or_roll_back env created s).1.log
              ≡ api (delete_resource created.resource_id)
                ∷ patch_object s.res (record s.res { status = created_status created s.res.status })
                ∷ s.log))
unfolding persist_or_roll_back patch_status
persist_or_roll_back_lem env created s =
    elim (Result-cases
      (env.patch s.log s.res (record s.res { status = created_status created s.res.status }))) [
        | inl (answer, e) ↦ inl (answer, e, ground arith)
        | inr (failure, e) ↦ inr (failure, e, ground arith, ground arith)
      ]
