-- ===== src/Matching/Consumer/Tests.antt =====
-- Concrete messages of one partition.
use project_final_1team.Prelude.{◌≡◌, refl, true, false, none, some, [], ◌∷◌}
use project_final_1team.Prelude.Int.{pos, leb_ℤ}
use project_final_1team.Dict
use project_final_1team.Decimal.Whole.{whole, of_string}
use project_final_1team.Matching.OrderBook
use project_final_1team.Matching.OrderBook.{insert_resting}
use project_final_1team.Matching.Tests.{book-IsGoodBook, book-IsUncrossed}
use project_final_1team.Matching.Engine.Tests.{in_memory, nothing, engine}
use project_final_1team.Matching.Engine.Safety.{IsSafe}
use project_final_1team.Matching.Consumer.{OrderMessage, Message, read_loop}
use project_final_1team.Matching.Consumer.Loop.{read_loop-IsSafe}

abbrev cancel_message : OrderMessage
cancel_message = record {
  type = "CANCEL";
  order_id = "a1";
  market = "KRW-BTC";
  side = "";
  price = "";
  quantity = "";
}

abbrev unreadable : Message
unreadable = record { offset = pos 1; value = none; now = 1; later = 1 }

abbrev canceling : Message
canceling = record unreadable { offset = pos 2; value = some cancel_message }

abbrev handled : Message
handled = record canceling { offset = pos 0 }

-- The cancel_message after the unreadable message takes the ask out of the book.
reads_on :
    Dict.has "a1"
      (read_loop of_string
        (in_memory true)
        (unreadable ∷ canceling ∷ [])
        (engine, nothing)).0.book.elements
    ≡ false
unfolding whole OrderBook.new Dict.empty Dict.get Dict.put Dict.delete insert_resting read_loop
reads_on = refl

read_loop-IsSafe_example :
    let e' =
      (read_loop of_string (in_memory true) (unreadable ∷ canceling ∷ []) (engine, nothing)).0 in
    IsSafe e'.book × (leb_ℤ (pos 0) e'.last_offset ≡ true)
read_loop-IsSafe_example =
    read_loop-IsSafe of_string (in_memory true) (unreadable ∷ canceling ∷ []) engine nothing
      (book-IsGoodBook, book-IsUncrossed)
