-- ===== src/Pages/TablePage/Start.antt =====
-- Init of page/table_page.cpp.
use wslproject.Base.{ℕ, ◌%◌, ◌≡◌, refl, ◌∙◌, List, none, ok, ◌==◌, length, arith, if◌then◌else◌}
use wslproject.Base.Bytes.{IsU32}
use wslproject.Base.Memory.{word, put, store_u32-eq}
use wslproject.Base.Blocks.{length-splice, word-put}
use wslproject.Record.Row.{invalid_page_id}
use wslproject.Pages.TablePage.{init}
use wslproject.Pages.TablePage.Layout.{free_space, count, view, IsValid, view_beyond}

module _ (p : List ℕ) (page_id prev_id : ℕ) (sized : length p ≡ 4096) (id_u32 : IsU32 page_id)
    (prev_u32 : IsU32 prev_id) where
  abbrev with_id : List ℕ
  with_id = put p 0 page_id

  abbrev with_prev : List ℕ
  with_prev = put with_id 8 prev_id

  abbrev with_next : List ℕ
  with_next = put with_prev 12 invalid_page_id

  abbrev with_space : List ℕ
  with_space = put with_next 16 4096

  abbrev started : List ℕ
  started = put with_space 20 0

  length-with_id : length with_id ≡ 4096
  length-with_id = length-splice p 0 _ ∙ sized

  length-with_prev : length with_prev ≡ 4096
  length-with_prev = length-splice with_id 8 _ ∙ length-with_id

  length-with_next : length with_next ≡ 4096
  length-with_next = length-splice with_prev 12 _ ∙ length-with_prev

  length-with_space : length with_space ≡ 4096
  length-with_space = length-splice with_next 16 _ ∙ length-with_next

  word-started :
      (q : ℕ)
      → q % 4 ≡ 0
      → word started q ≡ (
          if 20 == q
          then 0
          else if 16 == q
          then 4096
          else if 12 == q
          then invalid_page_id
          else if 8 == q
          then prev_id
          else if 0 == q
          then page_id
          else word p q)
  word-started q aligned = rw (
    word-put with_space 20 0 q (omega arith) (omega (arith, length-with_space)) (omega arith),
    word-put with_next 16 4096 q (omega arith) (omega (arith, length-with_next)) (omega arith),
    word-put with_prev 12 invalid_page_id q (omega arith) (omega (arith, length-with_prev))
        (omega arith),
    word-put with_id 8 prev_id q (omega arith) (omega (arith, length-with_id)) prev_u32,
    word-put p 0 page_id q (omega arith) (omega arith) id_u32,
  )

  -- Init makes any page a valid one with no slots, with the ids that it is given and no next page.
  pub init_lem :
      (p' : List ℕ) × (init p page_id prev_id ≡ ok p')
      × IsValid p'
      × ((j : ℕ) → view p' j ≡ none)
      × (word p' 0 ≡ page_id)
      × (word p' 8 ≡ prev_id)
      × (word p' 12 ≡ invalid_page_id)
  unfolding init
  init_lem = (
    started,
    rw
        (
          store_u32-eq p 0 page_id (omega arith),
          store_u32-eq with_id 8 prev_id (omega (arith, length-with_id)),
          store_u32-eq with_prev 12 invalid_page_id (omega (arith, length-with_prev)),
          store_u32-eq with_next 16 4096 (omega (arith, length-with_next)),
          store_u32-eq with_space 20 0 (omega (arith, length-with_space)),
        )
        refl,
    record {
      sized = length-splice with_space 20 _ ∙ length-with_space;
      layout = record {
        room = omega (arith, no_slots, space);
        ends = omega (arith, space);
        small = λ j h. absurd (omega (arith, no_slots));
        within = λ j h u. absurd (omega (arith, no_slots));
        apart = λ j k hj hk ne uj uk. absurd (omega (arith, no_slots));
      };
    },
    (λ j. view_beyond started j (omega (arith, no_slots))),
    word-started 0 refl,
    word-started 8 refl,
    word-started 12 refl,
  )
    where
      no_slots : count started ≡ 0
      no_slots = word-started 20 refl

      space : free_space started ≡ 4096
      space = word-started 16 refl
