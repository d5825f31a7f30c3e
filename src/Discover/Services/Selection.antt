-- ===== src/Discover/Services/Selection.antt =====
-- selectPort of internal/autodiscover/autodiscover.go.
use pangolin_operator.Base.{
  Option, none, some, List, [], ◌∷◌, ◌≡◌, ◌⊎◌, ◌||◌, inl, inr, refl, sym, In, arith, Bool-cases,
  Option-cases,
}
use mathlib.Core.Option.{some-injective}
use pangolin_operator.Base.Text.{Text, txt, text_eq, text_eq_iff, lookup, trim_space, itoa}
use pangolin_operator.Discover.Annotations.{Annotations, key_of}
use pangolin_operator.Discover.Objects.{Service, ServicePort}
use pangolin_operator.Discover.Services.{port_called, port_named, default_port, select_port}

port_called_sound :
    (v : Text) (ps : List ServicePort) (p : ServicePort)
    → port_called v ps ≡ some p
    → In p ps × ((itoa p.port ≡ v) ⊎ (p.name ≡ v))
unfolding port_called
port_called_sound v [] p h = cc
port_called_sound v (q ∷ ps) p h = elim (Bool-cases (text_eq (itoa q.port) v || text_eq q.name v)) [
  | inl hit ↦
      let same : q ≡ p = some-injective q p (rw hit at h) in
      rw (sym same)
        (inl refl, ground (arith, hit, text_eq_iff (itoa q.port) v, text_eq_iff q.name v))
  | inr miss ↦ let (m, e) = port_called_sound v ps p (rw miss at h) in (inr m, e)
]

port_named_sound :
    (v : Text) (ps : List ServicePort) (p : ServicePort)
    → port_named v ps ≡ some p
    → In p ps × (p.name ≡ v)
unfolding port_named
port_named_sound v [] p h = cc
port_named_sound v (q ∷ ps) p h = elim (Bool-cases (text_eq q.name v)) [
  | inl hit ↦
      let same : q ≡ p = some-injective q p (rw hit at h) in
      rw (sym same) (inl refl, (text_eq_iff q.name v).0 hit)
  | inr miss ↦ let (m, e) = port_named_sound v ps p (rw miss at h) in (inr m, e)
]

default_port_sound :
    (ps : List ServicePort) (p : ServicePort)
    → default_port ps ≡ some p
    → In p ps × ((ps ≡ p ∷ []) ⊎ (p.name ≡ txt "http"))
unfolding default_port
default_port_sound [] p h = cc
default_port_sound (q ∷ []) p h =
    let same = some-injective q p h in rw (sym same) (inl refl, inl refl)
default_port_sound (q ∷ r ∷ ps) p h =
    let (m, e) = port_named_sound (txt "http") (q ∷ r ∷ ps) p h in (m, inr e)

-- How a port was chosen: by the annotation, or without one as the only port or by its name.
abbrev pub ChosenBy : Option Text → List ServicePort → ServicePort → Type 0
ChosenBy none ps p = (ps ≡ p ∷ []) ⊎ (p.name ≡ txt "http")
ChosenBy (some v) ps p = (itoa p.port ≡ trim_space v) ⊎ (p.name ≡ trim_space v)

-- A port that selectPort returns is one of the service's, and it is the one that the annotation
-- names by number or by name, or without an annotation the only one or one named http.
pub select_port-ChosenBy :
    (svc : Service) (annotations : Annotations) (prefix : Text) (p : ServicePort)
    → select_port svc annotations prefix ≡ some p
    → In p svc.ports × ChosenBy (lookup (key_of prefix (txt "port")) annotations) svc.ports p
unfolding select_port
select_port-ChosenBy svc annotations prefix p h =
    elim (Option-cases (lookup (key_of prefix (txt "port")) annotations)) [
      | inl missing ↦ rw missing (default_port_sound svc.ports p (rw missing at h))
      | inr (v, found) ↦ rw found (port_called_sound (trim_space v) svc.ports p (rw found at h))
    ]
