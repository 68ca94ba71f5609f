-- ===== src/OpAmp/Attributes.antt =====
-- instanceuid_conflict.go: which attributes name different agents.
use opampcommander.Base.{
  String, ◌≡◌, refl, sym, ◌∙◌, ◌≢◌, ◌↔◌, ◌⊎◌, inl, inr, Bool, true, false, not, ◌&&◌, ◌||◌, Option,
  none, some, List, [], ◌∷◌, arith, eq_iff, nat_beq_iff, if◌then◌else◌, nat_eq, string_eq,
  Option-cases, Assoc, length, is_cons, lookup, insert,
}
use opampcommander.Base.MapLaws.{IsMap, insert-IsMap, contains_all_sound, contains_all_complete}
use opampcommander.Base.Submaps.{Within, length-Within, Within-length}
use opampcommander.OpAmp.Proto.{KeyValue}
use opampcommander.OpAmp.ToDomain.{Formats, to_map_from, to_map, any_value_to_string}
use opampcommander.OpAmp.Conflict.{map_equal, ids_differ, attributes_differ}

and_both : (b c : Bool) → (b && c) ≡ true → (b ≡ true) × (c ≡ true)
and_both b c h = ground arith

-- The same value, or none, under every key.
abbrev pub SameEntries : Assoc String → Assoc String → Type 0
SameEntries a b = (k : String) → lookup k a ≡ lookup k b

map_equal_iff : (a b : Assoc String) → IsMap a → IsMap b → (map_equal a b ≡ true) ↔ SameEntries a b
unfolding map_equal
map_equal_iff a b ha hb = (
  λ h k.
      let (l, c) = and_both _ _ h in
      let e : length a ≡ length b = (nat_beq_iff _ _).0 l in
      let w : Within a b = λ j v. contains_all_sound b a j v c in
      let back = Within-length a b ha w e in
      elim (Option-cases (lookup k a)) [
        | inr (v, s) ↦ s ∙ sym (w k v s)
        | inl n ↦ elim (Option-cases (lookup k b)) [
          | inl m ↦ n ∙ sym m
          | inr (v, s) ↦
              absurd (let f : ◌≡◌ {A = Option String} none (some v) = sym n ∙ back k v s in cc f)
        ]
      ],
  λ same.
      let w : Within a b = λ k v e. sym (same k) ∙ e in
      let back : Within b a = λ k v e. same k ∙ e in
      let e : length a ≡ length b =
        omega (arith, length-Within a b ha w, length-Within b a hb back) in
      rw ((nat_beq_iff _ _).1 e, contains_all_complete b a ha w) refl,
)

-- The agents of the two sets of attributes are told apart: by their IDs, where both have one, and else by
-- any attribute.
pub data ToldApart (a b : Assoc String) : Type 0 where
  by_id :
      (i j : String)
      → lookup "service.instance.id" a ≡ some i
      → lookup "service.instance.id" b ≡ some j
      → i ≢ j
      → ToldApart a b
  by_attribute :
      (lookup "service.instance.id" a ≡ none) ⊎ (lookup "service.instance.id" b ≡ none)
      → ¬ SameEntries a b
      → ToldApart a b

refuted : (b : Bool) → not b ≡ true → b ≢ true
refuted true h e = cc h
refuted false h e = cc e

refuting : (b : Bool) → b ≢ true → not b ≡ true
refuting true h = absurd (h refl)
refuting false h = refl

ids_differ_iff :
    (i j : Option String) (a b : Assoc String)
    → IsMap a
    → IsMap b
    → lookup "service.instance.id" a ≡ i
    → lookup "service.instance.id" b ≡ j
    → (ids_differ i j a b ≡ true) ↔ ToldApart a b
unfolding ids_differ
ids_differ_iff (some i) (some j) a b ha hb ei ej = (
  λ h. ToldApart.by_id i j ei ej λ e. refuted _ h ((eq_iff i j).1 e),
  λ d. elim d [
    | by_id i' j' ei' ej' ne ↦ refuting _ λ q.
        let f : some i ≡ some i' = sym ei ∙ ei' in
        let g : some j ≡ some j' = sym ej ∙ ej' in
        let x : i ≡ i' = cc f in let y : j ≡ j' = cc g in absurd (ne (sym x ∙ (eq_iff i j).0 q ∙ y))
    | by_attribute (inl n) _ ↦
        absurd (let f : ◌≡◌ {A = Option String} none (some i) = sym n ∙ ei in cc f)
    | by_attribute (inr n) _ ↦
        absurd (let f : ◌≡◌ {A = Option String} none (some j) = sym n ∙ ej in cc f)
  ],
)
ids_differ_iff none j a b ha hb ei ej = (
  λ h. ToldApart.by_attribute (inl ei) λ same. refuted _ h ((map_equal_iff a b ha hb).1 same),
  λ d. elim d [
    | by_id i' j' ei' ej' ne ↦
        absurd (let f : ◌≡◌ {A = Option String} none (some i') = sym ei ∙ ei' in cc f)
    | by_attribute _ ns ↦ refuting _ λ q. absurd (ns ((map_equal_iff a b ha hb).0 q))
  ],
)
ids_differ_iff (some i) none a b ha hb ei ej = (
  λ h. ToldApart.by_attribute (inr ej) λ same. refuted _ h ((map_equal_iff a b ha hb).1 same),
  λ d. elim d [
    | by_id i' j' ei' ej' ne ↦
        absurd (let f : ◌≡◌ {A = Option String} none (some j') = sym ej ∙ ej' in cc f)
    | by_attribute _ ns ↦ refuting _ λ q. absurd (ns ((map_equal_iff a b ha hb).0 q))
  ],
)

cons_there : (a : Assoc String) → is_cons a ≡ true → a ≢ []
cons_there [] h e = cc h
cons_there (x ∷ a) h e = let f : ◌≡◌ {A = List (String × String)} [] (x ∷ a) = sym e in cc f

there_cons : (a : Assoc String) → a ≢ [] → is_cons a ≡ true
there_cons [] h = absurd (h refl)
there_cons (x ∷ a) h = refl

split :
    (b c d : Bool)
    → (if not b || not c then false else d) ≡ true
    → (b ≡ true) × ((c ≡ true) × (d ≡ true))
split b c d h = ground arith

-- Attributes differ where both sides have some and their agents are told apart.
pub attributes_differ_iff :
    (a b : Assoc String)
    → IsMap a
    → IsMap b
    → (attributes_differ a b ≡ true) ↔ ((a ≢ []) × ((b ≢ []) × ToldApart a b))
unfolding attributes_differ
attributes_differ_iff a b ha hb =
    let told = ids_differ_iff _ _ a b ha hb refl refl in
    (
      λ h.
          let (x, (y, d)) = split (is_cons a) (is_cons b) _ h in
          (cons_there a x, (cons_there b y, told.0 d)),
      λ (x, (y, d)). rw (there_cons a x, there_cons b y) (told.1 d),
    )

to_map_from-IsMap :
    (f : Formats) (m : Assoc String) (kvs : List KeyValue) → IsMap m → IsMap (to_map_from f m kvs)
unfolding to_map_from
to_map_from-IsMap f m [] h = h
to_map_from-IsMap f m (kv ∷ kvs) h =
    to_map_from-IsMap f (insert kv.key (any_value_to_string f kv.value) m) kvs
      (insert-IsMap kv.key (any_value_to_string f kv.value) m h)

pub to_map-IsMap : (f : Formats) (kvs : List KeyValue) → IsMap (to_map f kvs)
unfolding to_map
to_map-IsMap f kvs = to_map_from-IsMap f [] kvs tt
