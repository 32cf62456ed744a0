-- ===== src/Tests/Table.antt =====
-- The theorems on the hash table at concrete inputs.
use nat_framework.Prelude.{ℕ, ◌≡◌, ◌==◌, refl, if◌then◌else◌, some, none, List, [], ◌∷◌, arith}
use nat_framework.HashTable.{
  Layer, get, overwrite, fill, insert, del, get-insert, get-del, IsUnique,
}

-- Layers of three and five nodes; the node of 4 in the first holds 1, which has the same remainder.
abbrev table : List (Layer ℕ)
table =
    record { basesize = 3; keys = λ j. if j == 1 then 1 else 0; vals = λ j. 70 }
    ∷ record { basesize = 5; keys = λ j. 0; vals = λ j. 0 }
    ∷ []

abbrev table_4 : List (Layer ℕ)
table_4 =
    record { basesize = 3; keys = λ j. if j == 1 then 1 else 0; vals = λ j. 70 }
    ∷ record {
      basesize = 5;
      keys = λ j. if j == 4 then 4 else 0;
      vals = λ j. if j == 4 then 90 else 0;
    }
    ∷ []

inserted : insert 4 90 table ≡ some table_4
unfolding insert overwrite fill
inserted = refl

get-insert_example : get 4 table_4 ≡ (if 4 == 4 then some 90 else get 4 table)
get-insert_example = get-insert 4 4 90 table table_4 (ground arith) inserted

one_1 : IsUnique 1 table_4
unfolding get
one_1 = ((λ e. refl), ((λ e. refl), tt))

get-del_example : get 4 (del 1 table_4).0 ≡ (if 4 == 1 then none else get 4 table_4)
get-del_example = get-del 4 1 table_4 (ground arith) one_1
