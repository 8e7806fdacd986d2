-- ===== src/Variant/Memory/Tests.antt =====
-- Runs of the memory of src/Variant.cpp, and its laws on them.
use ucxx.Base.{arith, ◌≤◌, ℕ, ltb, ◌≡◌, refl, [], ◌∷◌, true, false, Option, none, some}
use ucxx.Base.Int.{pos}
use ucxx.Variant.Memory.{
  Object, Heap, integer, string, list, nil, cons, clear, clear_cells, init_from, init_cells, Cells,
  map, replace_cells, new_cells, assign_list, assign_map, assign, assign_boolean, assign_integer,
  assign_real, assign_string,
}
use ucxx.Variant.Memory.Construct.{IsRestored, destroyed, destroy-construct}
use ucxx.Variant.Memory.Containers.{Gives, assign_containers}
use ucxx.Variant.Memory.Clear.{cell_addresses, addresses, Deletable, cleared}
use ucxx.Variant.Memory.Copy.{size}
use ucxx.Variant.Memory.Fresh.{value, cell_values}
use ucxx.Variant.Memory.Assign.{IsCopy, assign-IsCopy, assign_element}

running : ℕ
unfolding clear clear_cells init_from init_cells assign assign_boolean assign_integer assign_real
    assign_string addresses cell_addresses cell_values size value assign_list assign_map
    replace_cells new_cells
running = 0

-- A list at 0 of a string at 1 and an int, and a string at 2.
abbrev items : Object
items = list 0 (cons none (string 1 (b'x' ∷ [])) (cons none (integer (pos 7)) nil))

abbrev text : Object
text = string 2 (b'y' ∷ [])

abbrev heap : Heap
heap = record { live = λ a. ltb a 3; next = 3 }

-- A Variant of a copy, as far as it can be compared.
abbrev made : Option (Object × Heap) → Option (Object × ℕ)
made none = none
made (some (o, h)) = some (o, h.next)

runs :
    (made (init_from items heap)
      ≡ some (list 3 (cons none (string 4 (b'x' ∷ [])) (cons none (integer (pos 7)) nil)), 5))
    × (made (assign false items none text heap) ≡ some (string 3 (b'y' ∷ []), 4))
    × (assign false items (some 0) (integer (pos 7)) heap ≡ none)
    × (made (assign_string text none [] heap) ≡ some (string 2 [], 3))
    × (clear (list 0 (cons none (string 0 []) nil)) heap ≡ none)
unfolding running
runs = (refl, refl, refl, refl, refl)

items-Deletable : Deletable (addresses items) heap.live
unfolding running
items-Deletable = (refl, (refl, tt))

assign-IsCopy_example :
    (r : Object × Heap) × (assign false items none text heap ≡ some r)
    × IsCopy text (cleared heap (addresses items)) r
unfolding running
assign-IsCopy_example = assign-IsCopy items text none heap items-Deletable tt (refl, tt)

assign_element_example : assign false items (some 0) (integer (pos 7)) heap ≡ none
unfolding running
assign_element_example = assign_element items (integer (pos 7)) 0 heap items-Deletable refl

abbrev letters : Cells
letters = cons none (string 2 (b'y' ∷ [])) nil

container_runs :
    (made (assign_list false items none letters heap)
      ≡ some (list 0 (cons none (string 3 (b'y' ∷ [])) nil), 4))
    × (made (assign_map false items none letters heap)
        ≡ some (map 3 (cons none (string 4 (b'y' ∷ [])) nil), 5))
    × (assign_list false items (some 1) letters heap ≡ none)
unfolding running
container_runs = (refl, refl, refl)

heap_bounded : (b : ℕ) → heap.next ≤ b → heap.live b ≡ false
heap_bounded b beyond = ground arith

assign_containers_example :
    Gives (assign_list false items none letters heap) (list 0 letters)
    × Gives (assign_map false items none letters heap) (map 0 letters)
    × ((a : ℕ) (cells : Cells)
        → heap.live a ≡ true
        → (assign_list true (list a cells) (some a) cells heap ≡ some (list a cells, heap))
          × (assign_map true (map a cells) (some a) cells heap ≡ some (map a cells, heap)))
unfolding running
assign_containers_example =
    assign_containers items none letters heap heap_bounded items-Deletable tt (refl, tt)

destroy-construct_example : IsRestored heap (destroyed (init_from items heap))
unfolding running
destroy-construct_example = (destroy-construct heap heap_bounded).0 items (refl, (refl, tt))
