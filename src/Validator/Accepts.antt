-- ===== src/Validator/Accepts.antt =====
-- An accepted instance conforms to its schema at every depth.
use agent00x.Prelude.{
  ℕ, suc, Text, text, Bool, true, Option, none, some, ◌++◌, Result, ok, ◌≡◌, bind_returns, ap, ◌∙◌,
}
use agent00x.Host.{Host}
use agent00x.Validator.{check_text, check_object, validate_members, validate_fields, validate_items}
use agent00x.Validator.Conforming.{
  HeadConforms, NumberConforms, AtLeast, MembersConform, EntriesConform, ItemsConform, conforms,
  of_dict, of_list, of_text, of_null, of_bool, of_int, of_tuple, of_object, no_entry, entry,
  no_member, member,
}
use agent00x.Validator.Keywords.{
  invalid, too_few, check_head, around, entry_schema, entry_verdict, items_schema, item_path,
}
use agent00x.Validator.Parts.{
  invalid-passes, check_head-Conforms, too_few-AtLeast, check_numbers-Conforms,
  check_object-Conforms, check_text-Conforms,
}
use agent00x.Validator.Schemas.{count}
use agent00x.Values.{
  Value, null, bool, int, str, list, dict, Fields, end, field, has, Items, nil, cons, tuple, object,
}

around-ok :
    (v : Value) (s : Fields) (path : Text) (inner : Result (Unit {0}))
    → around v s path inner ≡ ok tt
    → HeadConforms v s × NumberConforms v s × (inner ≡ ok tt)
unfolding around
around-ok v s path inner h =
    let (_, head, h1) = bind_returns (check_head v s path) _ h in
    let (_, middle, h2) = bind_returns inner _ h1 in
    (check_head-Conforms v s path head, check_numbers-Conforms v s path h2, middle)

module _ (host : Host) (re_search : Text → Text → Bool) where
  -- The verdict on an entry for which there is a schema, and on the entries after it.
  fields_split :
      (k : Text) (v : Value) (d s s' : Fields) (step path : Text)
      → entry_schema k s ≡ some (s', step)
      → validate_fields host re_search (field k v d) s path ≡ ok tt
      → around v s' (path ++ step) (validate_members host re_search v s' (path ++ step)) ≡ ok tt
  unfolding validate_fields
  fields_split k v d s s' step path e h =
      (bind_returns
        (around v s' (path ++ step) (validate_members host re_search v s' (path ++ step))) _
        (unfold entry_verdict in (rw e at h))).1

  entry_verdict-rest :
      (o : Option (Fields × Text)) (test : Fields → Text → Result (Unit {0}))
      (rest : Result (Unit {0}))
      → entry_verdict o test rest ≡ ok tt
      → rest ≡ ok tt
  unfolding entry_verdict
  entry_verdict-rest none test rest h = h
  entry_verdict-rest (some (s, step)) test rest h = (bind_returns (test s step) _ h).2

  -- The entries after one.
  fields_rest :
      (k : Text) (v : Value) (d s : Fields) (path : Text)
      → validate_fields host re_search (field k v d) s path ≡ ok tt
      → validate_fields host re_search d s path ≡ ok tt
  unfolding validate_fields
  fields_rest k v d s path h = entry_verdict-rest (entry_schema k s) _ _ h

  items_split :
      (v : Value) (vs : Items) (index : ℕ) (s : Fields) (path : Text)
      → has s (text "items") ≡ true
      → validate_items host re_search (cons v vs) index s path ≡ ok tt
      → (around v
            (items_schema s)
            (item_path path index)
            (validate_members host re_search v (items_schema s) (item_path path index))
          ≡ ok tt)
        × (validate_items host re_search vs (suc index) s path ≡ ok tt)
  unfolding validate_items
  items_split v vs index s path here h =
      let (_, first, rest) =
        bind_returns
          (around v (items_schema s) (item_path path index)
            (validate_members host re_search v (items_schema s) (item_path path index)))
          _ (rw here at h) in
      (first, rest)

  dict_split :
      (d s : Fields) (path : Text)
      → validate_members host re_search (dict d) s path ≡ ok tt
      → (check_object host re_search d s path ≡ ok tt)
        × (validate_fields host re_search d s path ≡ ok tt)
  unfolding validate_members
  dict_split d s path h =
      let (_, first, rest) = bind_returns (check_object host re_search d s path) _ h in
      (first, rest)

  list_split :
      (xs : Items) (s : Fields) (path : Text)
      → validate_members host re_search (list xs) s path ≡ ok tt
      → AtLeast (count xs) s (text "minItems") × (validate_items host re_search xs 0 s path ≡ ok tt)
  unfolding validate_members
  list_split xs s path h =
      let (few, e, h1) = bind_returns (too_few (count xs) s (text "minItems")) _ h in
      let (_, enough, rest) = bind_returns (invalid few _ _) _ h1 in
      (too_few-AtLeast (count xs) s _ (e ∙ ap ok (invalid-passes few _ _ enough)), rest)

  text_checked :
      (t : Text) (s : Fields) (path : Text)
      → validate_members host re_search (str t) s path ≡ ok tt
      → check_text host re_search t s path ≡ ok tt
  unfolding validate_members
  text_checked t s path h = h

  mutual
    validate_members-Conform :
        (v : Value) (s : Fields) (path : Text)
        → validate_members host re_search v s path ≡ ok tt
        → MembersConform host re_search v s
    validate_members-Conform null s path h = of_null
    validate_members-Conform (bool b) s path h = of_bool
    validate_members-Conform (int n) s path h = of_int
    validate_members-Conform (tuple xs) s path h = of_tuple
    validate_members-Conform (object n) s path h = of_object
    validate_members-Conform (str t) s path h =
        of_text (check_text-Conforms host re_search t s path (text_checked t s path h))
    validate_members-Conform (dict d) s path h =
        let (checked, rest) = dict_split d s path h in
        of_dict (check_object-Conforms host re_search d s path checked)
          (validate_fields-Conform d s path rest)
    validate_members-Conform (list xs) s path h =
        let (enough, rest) = list_split xs s path h in
        of_list enough (λ here. validate_items-Conform xs 0 s path here rest)

    validate_fields-Conform :
        (d s : Fields) (path : Text)
        → validate_fields host re_search d s path ≡ ok tt
        → EntriesConform host re_search d s
    validate_fields-Conform end s path h = no_entry
    validate_fields-Conform (field k v d) s path h =
        entry
          (λ s' step e.
            let (head, number, members) =
              around-ok v s' _ _ (fields_split k v d s s' step path e h) in
            conforms head number (validate_members-Conform v s' (path ++ step) members))
          (validate_fields-Conform d s path (fields_rest k v d s path h))

    validate_items-Conform :
        (xs : Items) (index : ℕ) (s : Fields) (path : Text)
        → has s (text "items") ≡ true
        → validate_items host re_search xs index s path ≡ ok tt
        → ItemsConform host re_search xs (items_schema s)
    validate_items-Conform nil index s path here h = no_member
    validate_items-Conform (cons v vs) index s path here h =
        let (first, rest) = items_split v vs index s path here h in
        let (head, number, members) = around-ok v (items_schema s) _ _ first in
        member
          (conforms head number
            (validate_members-Conform v (items_schema s) (item_path path index) members))
          (validate_items-Conform vs (suc index) s path here rest)
