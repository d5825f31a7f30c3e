-- ===== src/Discover/Ensure/Written.antt =====
-- What ensureOwnedPublicResource of internal/autodiscover/autodiscover.go leaves on the server.
use pangolin_operator.Base.{
  Option, none, some, List, [], ◌∷◌, ◌≡◌, ◌≢◌, ◌⊎◌, inl, inr, refl, sym, Bool, false, true,
  Bool-cases, not, ◌&&◌, ◌||◌, arith,
}
use pangolin_operator.Base.Errors.{Error, is_kube_not_found}
use pangolin_operator.Base.Exec.{ok, err, Result-cases}
use pangolin_operator.Base.Text.{
  Text, txt, text_eq, text_eq_iff, text_eq_refl, lookup, lookup-insert, or_zero,
}
use pangolin_operator.Discover.Ensure.{
  Call, get_object, create_object, patch_object, Server, Owner, Labels, new_resource, labels_of,
  no_labels, has_owner_labels, with_owner_labels, needs_patch, patched, base_of,
  ensure_owned_public_resource,
}
use pangolin_operator.Discover.Objects.{Json}
use pangolin_operator.Types.Meta.{OwnerReference, label_owner_kind, label_owner_name, label_site}
use pangolin_operator.Types.Public.{PublicResource, PublicResourceSpec}

-- The three labels of the owner.
abbrev pub IsLabelled : Owner → Labels → Type 0
IsLabelled owner labels =
    (lookup label_owner_kind labels ≡ some owner.kind)
    × (lookup label_owner_name labels ≡ some owner.name)
    × (lookup label_site labels ≡ some owner.site_name)

module _ (json : Json) (server : Server) (owner : Owner) (namespace res_name : Text)
    (spec : PublicResourceSpec) where
  -- The object has labels, those of the owner among them (one that is missing reads as empty), and a
  -- spec with the same JSON.
  pub record IsCurrent (r : PublicResource) : Type 0 where
    pub labels : Labels
    pub has_labels : r.metadata.labels ≡ some labels
    pub kind : or_zero (lookup label_owner_kind labels) ≡ owner.kind
    pub name : or_zero (lookup label_owner_name labels) ≡ owner.name
    pub site : or_zero (lookup label_site labels) ≡ owner.site_name
    pub same_spec : json.encode_spec spec ≡ json.encode_spec r.spec

  -- The object was read, and was current.
  pub record IsKept (log log' : List Call) : Type 0 where
    pub existing : PublicResource
    pub found : server.get log namespace res_name ≡ ok existing
    pub current : IsCurrent existing
    pub calls : log' ≡ get_object namespace res_name ∷ log

  -- There was no object, and the server accepted a new one of this name, with the spec, the labels,
  -- and the NewtSite as its controller.
  pub record IsCreated (log log' : List Call) : Type 0 where
    pub missing : Error
    pub absent : server.get log namespace res_name ≡ err missing
    pub is_absent : is_kube_not_found missing ≡ true
    pub sent : PublicResource
    pub answer : PublicResource
    pub accepted : server.create (get_object namespace res_name ∷ log) sent ≡ ok answer
    pub calls : log' ≡ create_object sent ∷ get_object namespace res_name ∷ log
    pub name : sent.metadata.name ≡ res_name
    pub in_namespace : sent.metadata.namespace ≡ namespace
    pub same_spec : sent.spec ≡ spec
    pub labels : Labels
    pub has_labels : sent.metadata.labels ≡ some labels
    pub labelled : IsLabelled owner labels
    pub reference : OwnerReference
    pub only_reference : sent.metadata.owner_references ≡ reference ∷ []
    pub controller : reference.controller ≡ some true
    pub kind : reference.kind ≡ txt "NewtSite"
    pub site : reference.name ≡ owner.site_name
    pub uid : reference.uid ≡ owner.site_uid

  -- The object was read, and was not current, and the server accepted a patch from the spec that was
  -- read to the wanted one, with the owner's labels and otherwise the object's, and nothing else.
  pub record IsPatched (log log' : List Call) : Type 0 where
    pub existing : PublicResource
    pub found : server.get log namespace res_name ≡ ok existing
    pub stale : IsCurrent existing → ⊥
    pub base : PublicResource
    pub sent : PublicResource
    pub answer : PublicResource
    pub accepted : server.patch (get_object namespace res_name ∷ log) base sent ≡ ok answer
    pub calls : log' ≡ patch_object base sent ∷ get_object namespace res_name ∷ log
    pub old_spec : base.spec ≡ existing.spec
    pub old_metadata :
        base.metadata
        ≡ record existing.metadata { labels = some (labels_of existing.metadata.labels) }
    pub old_status : base.status ≡ existing.status
    pub new_spec : sent.spec ≡ spec
    pub labels : Labels
    pub new_metadata : sent.metadata ≡ record existing.metadata { labels = some labels }
    pub labelled : IsLabelled owner labels
    pub other_labels :
        (key : Text)
        → key ≢ label_owner_kind
        → key ≢ label_owner_name
        → key ≢ label_site
        → lookup key labels ≡ lookup key (labels_of existing.metadata.labels)
    pub same_status : sent.status ≡ existing.status

distinct_labels :
    (text_eq label_site label_owner_kind ≡ false)
    × (text_eq label_site label_owner_name ≡ false)
    × (text_eq label_owner_name label_owner_kind ≡ false)
unfolding text_eq
distinct_labels = (refl, refl, refl)

with_owner_labels-IsLabelled :
    (owner : Owner) (labels : Labels) → IsLabelled owner (with_owner_labels owner labels)
unfolding with_owner_labels
with_owner_labels-IsLabelled owner labels = (
  simp (lookup-insert, distinct_labels.0, distinct_labels.2, text_eq_refl),
  simp (lookup-insert, distinct_labels.1, text_eq_refl),
  simp (lookup-insert, text_eq_refl),
)

differ : (a b : Text) → b ≢ a → text_eq a b ≡ false
differ a b h = elim (Bool-cases (text_eq a b)) [
  | inl same ↦ absurd (h (sym ((text_eq_iff a b).0 same)))
  | inr other ↦ other
]

with_owner_labels-other :
    (owner : Owner) (labels : Labels) (key : Text)
    → key ≢ label_owner_kind
    → key ≢ label_owner_name
    → key ≢ label_site
    → lookup key (with_owner_labels owner labels) ≡ lookup key labels
unfolding with_owner_labels
with_owner_labels-other owner labels key a b c = simp (
  lookup-insert,
  differ label_owner_kind key a,
  differ label_owner_name key b,
  differ label_site key c,
)

all_true :
    (a b c d : Bool)
    → (not (a && (b && c)) || not d) ≡ false
    → (a ≡ true) × (b ≡ true) × (c ≡ true) × (d ≡ true)
all_true a b c d h = ground arith

new_labels-IsLabelled :
    (owner : Owner) (namespace res_name : Text) (spec : PublicResourceSpec)
    → IsLabelled owner (labels_of (new_resource owner namespace res_name spec).metadata.labels)
unfolding lookup text_eq
new_labels-IsLabelled owner namespace res_name spec = (refl, refl, refl)

module _ (json : Json) (server : Server) (owner : Owner) (namespace res_name : Text)
    (spec : PublicResourceSpec) where
  needs_patch-IsCurrent :
      (r : PublicResource)
      → needs_patch json server owner namespace res_name spec r ≡ false
      → IsCurrent json server owner namespace res_name spec r
  unfolding needs_patch has_owner_labels
  needs_patch-IsCurrent r = by_labels r.metadata.labels refl
    where
      by_labels :
          (o : Option Labels)
          → r.metadata.labels ≡ o
          → (no_labels o
              || (not (has_owner_labels owner (labels_of o))
                  || not (text_eq (json.encode_spec spec) (json.encode_spec r.spec))))
            ≡ false
          → IsCurrent json server owner namespace res_name spec r
      by_labels none e h = cc
      by_labels (some labels) e h =
          let (kind, named, site, same) = all_true _ _ _ _ h in
          record {
            labels = labels;
            has_labels = e;
            kind = (text_eq_iff _ _).0 kind;
            name = (text_eq_iff _ _).0 named;
            site = (text_eq_iff _ _).0 site;
            same_spec = (text_eq_iff _ _).0 same;
          }

  not_needed :
      (r : PublicResource)
      → IsCurrent json server owner namespace res_name spec r
      → needs_patch json server owner namespace res_name spec r ≡ false
  unfolding needs_patch has_owner_labels
  not_needed r c = rw (c.has_labels) (simp (c.kind, c.name, c.site, c.same_spec, text_eq_refl))

  read_Ensured :
      (log : List Call) (r : PublicResource)
      → server.get log namespace res_name ≡ ok r
      → (ensure_owned_public_resource json server owner namespace res_name spec log).0 ≡ ok tt
      → IsKept json server owner namespace res_name spec log
          (ensure_owned_public_resource json server owner namespace res_name spec log).1
        ⊎ IsPatched json server owner namespace res_name spec log
            (ensure_owned_public_resource json server owner namespace res_name spec log).1
  unfolding ensure_owned_public_resource
  read_Ensured log r found =
      elim (Bool-cases (needs_patch json server owner namespace res_name spec r)) [
        | inr steady ↦
            rw (found, steady)
              (λ _. inl (record {
                existing = r;
                found = found;
                current = needs_patch-IsCurrent r steady;
                calls = refl;
              }))
        | inl stale ↦
            rw (found, stale)
              (elim (Result-cases (
                server.patch (get_object namespace res_name ∷ log)
                  (base_of json server owner namespace res_name spec r)
                  (patched json server owner namespace res_name spec r))) [
                    | inr (e, failed) ↦ rw failed (λ h. cc)
                    | inl (answer, made) ↦ rw made (λ _. inr (record {
                      existing = r;
                      found = found;
                      stale = λ c. cc (stale, not_needed r c);
                      base = base_of json server owner namespace res_name spec r;
                      sent = patched json server owner namespace res_name spec r;
                      answer = answer;
                      accepted = made;
                      calls = refl;
                      old_spec = refl;
                      old_metadata = refl;
                      old_status = refl;
                      new_spec = refl;
                      labels = with_owner_labels owner (labels_of r.metadata.labels);
                      new_metadata = refl;
                      labelled = with_owner_labels-IsLabelled owner (labels_of r.metadata.labels);
                      other_labels = with_owner_labels-other owner (labels_of r.metadata.labels);
                      same_status = refl;
                    }))
                  ])
      ]

  absent_Ensured :
      (log : List Call) (e : Error)
      → server.get log namespace res_name ≡ err e
      → is_kube_not_found e ≡ true
      → (ensure_owned_public_resource json server owner namespace res_name spec log).0 ≡ ok tt
      → IsCreated json server owner namespace res_name spec log
          (ensure_owned_public_resource json server owner namespace res_name spec log).1
  unfolding ensure_owned_public_resource
  absent_Ensured log e failed absent =
      rw (failed, absent)
        (elim (Result-cases (
          server.create (get_object namespace res_name ∷ log)
            (new_resource owner namespace res_name spec))) [
              | inr (f, refused) ↦ rw refused (λ h. cc)
              | inl (answer, made) ↦ rw made (λ _. record {
                missing = e;
                absent = failed;
                is_absent = absent;
                sent = new_resource owner namespace res_name spec;
                answer = answer;
                accepted = made;
                calls = refl;
                name = refl;
                in_namespace = refl;
                same_spec = refl;
                labels = labels_of (new_resource owner namespace res_name spec).metadata.labels;
                has_labels = refl;
                labelled = new_labels-IsLabelled owner namespace res_name spec;
                reference = _;
                only_reference = refl;
                controller = refl;
                kind = refl;
                site = refl;
                uid = refl;
              })
            ])

  failing :
      (log : List Call) (e : Error)
      → server.get log namespace res_name ≡ err e
      → is_kube_not_found e ≡ false
      → (ensure_owned_public_resource json server owner namespace res_name spec log).0 ≢ ok tt
  unfolding ensure_owned_public_resource
  failing log e failed broken = rw (failed, broken) (λ h. cc)

  -- A call of ensureOwnedPublicResource that succeeds has either read an object that has labels, the
  -- owner's among them, and a spec with the JSON of the wanted one, and made no other call; or found
  -- no object, and the server accepted a new one of that name, with the spec, the owner's labels and
  -- the NewtSite as its only owner and controller; or read an object for which that does not hold,
  -- and the server accepted a patch to the spec and the owner's labels, which leaves the other
  -- labels, the rest of the metadata and the status as they were read.
  pub ensure_owned_public_resource_lem :
      (log : List Call)
      → (ensure_owned_public_resource json server owner namespace res_name spec log).0 ≡ ok tt
      → IsKept json server owner namespace res_name spec log
          (ensure_owned_public_resource json server owner namespace res_name spec log).1
        ⊎ (IsCreated json server owner namespace res_name spec log
              (ensure_owned_public_resource json server owner namespace res_name spec log).1
            ⊎ IsPatched json server owner namespace res_name spec log
                (ensure_owned_public_resource json server owner namespace res_name spec log).1)
  ensure_owned_public_resource_lem log h = elim (Result-cases (server.get log namespace res_name)) [
    | inl (r, found) ↦ elim (read_Ensured log r found h) [
      | inl kept ↦ inl kept
      | inr patch ↦ inr (inr patch)
    ]
    | inr (e, failed) ↦ elim (Bool-cases (is_kube_not_found e)) [
      | inl absent ↦ inr (inl (absent_Ensured log e failed absent h))
      | inr broken ↦ absurd (failing log e failed broken h)
    ]
  ]
