-- ===== src/Coordinator/Influence.antt =====
-- `influenced_by_`, which `init` builds, against the influencers of the model.
use cadmia.Prelude.{
  ◌≡◌, false, ◌&&◌, ◌||◌, if◌then◌else◌, List, [], ◌∷◌, foldl, Text, text_eq, text_eq_iff, contains,
  any, arith, Bool-cases, inl, inr,
}
use cadmia.Prelude.Maps.{find, assign, insert, find-assign}
use cadmia.CoupledModel.{self}
use cadmia.Coordinator.State.{targets, add_influence, add_influences, invert}

contains-insert :
    (k dest : Text) (xs : List Text)
    → contains k (insert dest xs) ≡ (text_eq dest k || contains k xs)
unfolding insert contains
contains-insert k dest xs = ground (arith, text_eq_iff dest k)

targets-assign :
    (src j : Text) (xs : List Text) (m : List (Text × List Text))
    → targets j (assign src xs m) ≡ (if text_eq src j then xs else targets j m)
targets-assign src j xs m = elim (Bool-cases (text_eq src j)) [
  | inl e ↦ ground (arith, find-assign src j xs m)
  | inr e ↦ ground (arith, find-assign src j xs m)
]

targets-add_influence :
    (k j dest src : Text) (m : List (Text × List Text))
    → text_eq j self ≡ false
    → contains k (targets j (add_influence dest m src))
      ≡ (contains k (targets j m) || (text_eq src j && text_eq dest k))
unfolding add_influence
targets-add_influence k j dest src m h = elim (Bool-cases (text_eq src self)) [
  | inl e ↦ rw e (ground (arith, text_eq_iff src j, text_eq_iff src self, text_eq_iff j self))
  | inr e ↦
      rw (e, targets-assign src j (insert dest (targets src m)) m)
        (elim (Bool-cases (text_eq src j)) [
          | inl q ↦
              rw (q, contains-insert k dest (targets src m), (text_eq_iff src j).0 q)
                (ground (arith))
          | inr q ↦ rw q (ground arith)
        ])
]

pub targets-foldl :
    (k j dest : Text) (sources : List Text) (m : List (Text × List Text))
    → text_eq j self ≡ false
    → contains k (targets j (foldl (add_influence dest) m sources))
      ≡ (contains k (targets j m) || (contains j sources && text_eq dest k))
unfolding contains
targets-foldl k j dest [] m h = ground arith
targets-foldl k j dest (src ∷ sources) m h = ground (
  arith,
  targets-foldl k j dest sources (add_influence dest m src) h,
  targets-add_influence k j dest src m h,
)

targets-add_influences :
    (k j dest : Text) (sources : List Text) (m : List (Text × List Text))
    → text_eq j self ≡ false
    → text_eq k self ≡ false
    → contains k (targets j (add_influences m (dest, sources)))
      ≡ (contains k (targets j m) || (text_eq dest k && contains j sources))
unfolding add_influences
targets-add_influences k j dest sources m h h' = elim (Bool-cases (text_eq dest self)) [
  | inl e ↦ rw e (ground (arith, text_eq_iff dest k, text_eq_iff dest self, text_eq_iff k self))
  | inr e ↦ rw e (ground (arith, targets-foldl k j dest sources m h))
]

targets-entries :
    (k j : Text) (entries : List (Text × List Text)) (m : List (Text × List Text))
    → text_eq j self ≡ false
    → text_eq k self ≡ false
    → contains k (targets j (foldl add_influences m entries))
      ≡ (contains k (targets j m) || any (λ e. text_eq e.0 k && contains j e.1) entries)
targets-entries k j [] m h h' = ground arith
targets-entries k j ((dest, sources) ∷ entries) m h h' = ground (
  arith,
  targets-entries k j entries (add_influences m (dest, sources)) h h',
  targets-add_influences k j dest sources m h h',
)

-- `influenced_by` lists a component `k` under a component `j` exactly when an entry of the influencers has
-- `k` as its destination and `j` among its sources; neither is "self".
pub invert_lem :
    (k j : Text) (influencers : List (Text × List Text))
    → text_eq j self ≡ false
    → text_eq k self ≡ false
    → contains k (targets j (invert influencers))
      ≡ any (λ e. text_eq e.0 k && contains j e.1) influencers
unfolding invert contains find
invert_lem k j influencers h h' = targets-entries k j influencers [] h h'
