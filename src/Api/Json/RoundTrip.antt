-- ===== src/Api/Json/RoundTrip.antt =====
-- The reader of JSON reads what `JSON.stringify(value, null, 2)` makes of a value.
use mirraura.Api.Json.Parser.{
  result, parse, done, Frame, in_array, State, value, after_item, after_member, items_of,
  members_of, in_object,
}
use mirraura.Api.Json.Parsed.{
  IsReadable, Ends, run_null, ItemsAreReadable, run_boolean, run_number, run_string,
  items_of-list_of, members_of-pairs_of, list_of, pairs_of, MembersAreReadable,
}
use mirraura.Base.{
  ℕ, ◌≡◌, ap, List, [], ◌∷◌, ◌++◌, Text, Option, some, append_assoc, ◌∙◌, suc, sym, append-nil,
}
use mirraura.Types.{Double}
use mirraura.Api.Json.Pretty.{
  Json, null, boolean, number, string, array, object, Items, no_items, item, Members, no_members,
  member, pretty, pretty_items, pretty_members,
}
use mirraura.Api.Json.Strings.{run}
use mirraura.Api.Json.Starts.{
  ends, goes, pretty_items-IsEnd, pretty_members-IsEnd, first_item_starts, item_starts, items_end,
  first_member_starts, member_starts, members_end, no_items_lem, no_members_lem,
}

module _ (number_text : Double → Text) (read_number : Text → Option Double) where
  abbrev reads_to : State → Text → Option State
  reads_to = goes number_text read_number

  mutual
    unfolding pretty IsReadable

    run_value :
        (d : ℕ) (v : Json) (fs : List Frame) (rest : Text)
        → Ends v rest
        → IsReadable number_text read_number v
        → reads_to (value fs) (pretty number_text d v ++ rest) ≡ reads_to (done v fs) rest
    run_value d null fs rest e u = run_null number_text read_number fs rest
    run_value d (boolean b) fs rest e u = run_boolean number_text read_number b fs rest
    run_value d (number n) fs rest e u = run_number number_text read_number n fs rest u e
    run_value d (string s) fs rest e u = run_string number_text read_number s fs rest u
    run_value d (array no_items) fs rest e u = no_items_lem number_text read_number fs rest
    run_value d (array (item v vs)) fs rest e (u, us) =
        let behind = pretty_items number_text d vs in
        first_item_starts number_text read_number d v fs behind rest u
        ∙ run_value (suc d) v (in_array [] ∷ fs) (behind ++ rest)
            (ends v (behind ++ rest) (pretty_items-IsEnd number_text d vs rest)) u
        ∙ run_items d (v ∷ []) vs fs rest us
        ∙ ap (λ ws. reads_to (done (array (item v ws)) fs) rest) (items_of-list_of vs)
    run_value d (object no_members) fs rest e u = no_members_lem number_text read_number fs rest
    run_value d (object (member k v ms)) fs rest e (h, u, us) =
        let behind = pretty_members number_text d ms in
        first_member_starts number_text read_number d k v fs behind rest h
        ∙ run_value (suc d) v (in_object [] k ∷ fs) (behind ++ rest)
            (ends v (behind ++ rest) (pretty_members-IsEnd number_text d ms rest)) u
        ∙ run_members d ((k, v) ∷ []) ms fs rest us
        ∙ ap (λ ws. reads_to (done (object (member k v ws)) fs) rest) (members_of-pairs_of ms)

    run_items :
        (d : ℕ) (acc : List Json) (vs : Items) (fs : List Frame) (rest : Text)
        → ItemsAreReadable number_text read_number vs
        → reads_to (after_item acc fs) (pretty_items number_text d vs ++ rest)
          ≡ reads_to (done (array (items_of (acc ++ list_of vs))) fs) rest
    run_items d acc no_items fs rest u =
        rw (append-nil acc) (items_end number_text read_number d acc fs rest)
    run_items d acc (item v vs) fs rest (u, us) =
        let behind = pretty_items number_text d vs in
        item_starts number_text read_number d acc v fs behind rest
        ∙ run_value (suc d) v (in_array acc ∷ fs) (behind ++ rest)
            (ends v (behind ++ rest) (pretty_items-IsEnd number_text d vs rest)) u
        ∙ run_items d (acc ++ v ∷ []) vs fs rest us
        ∙ ap (λ ws. reads_to (done (array (items_of ws)) fs) rest)
            (append_assoc acc (v ∷ []) (list_of vs))

    run_members :
        (d : ℕ) (acc : List (Text × Json)) (ms : Members) (fs : List Frame) (rest : Text)
        → MembersAreReadable number_text read_number ms
        → reads_to (after_member acc fs) (pretty_members number_text d ms ++ rest)
          ≡ reads_to (done (object (members_of (acc ++ pairs_of ms))) fs) rest
    run_members d acc no_members fs rest u =
        rw (append-nil acc) (members_end number_text read_number d acc fs rest)
    run_members d acc (member k v ms) fs rest (h, u, us) =
        let behind = pretty_members number_text d ms in
        member_starts number_text read_number d acc k v fs behind rest h
        ∙ run_value (suc d) v (in_object acc k ∷ fs) (behind ++ rest)
            (ends v (behind ++ rest) (pretty_members-IsEnd number_text d ms rest)) u
        ∙ run_members d (acc ++ (k, v) ∷ []) ms fs rest us
        ∙ ap (λ ws. reads_to (done (object (members_of ws)) fs) rest)
            (append_assoc acc ((k, v) ∷ []) (pairs_of ms))

  -- The reader gives back every array whose strings are texts of code units.
  pub parse-pretty :
      (vs : Items)
      → ItemsAreReadable number_text read_number vs
      → parse read_number (pretty number_text 0 (array vs)) ≡ some (array vs)
  unfolding parse run IsReadable
  parse-pretty vs u =
      let shown = pretty number_text 0 (array vs) in
      ap (λ s. result read_number (reads_to (value []) s)) (sym (append-nil shown))
      ∙ ap (result read_number) (run_value 0 (array vs) [] [] tt u)
