-- ===== src/Product.antt =====
-- include/product/Product.hpp, include/Client.hpp. The publisher is an interface of the source: its
-- calls are kept in `published`, the books oldest first. The clock readings are printed only.
pub mod Batches
use quote_server.Base.{
  String, ℕ, Bool, true, false, List, [], ◌∷◌, length, push_back, if◌then◌else◌,
}
use quote_server.Base.Dict
use quote_server.Base.Dict.{Dict}
use quote_server.Base.Floating.{Floating}
use quote_server.OrderBook.{OrderBook, empty_book}
use quote_server.ProductChange.{ProductChange, update_order_book}

pub record Client : Type 0 where
  pub client_id : String
  pub order_ids : List String

unfoldable pub new_client : String → Client
new_client client_id = record { client_id = client_id; order_ids = [] }

pub record Product (F : Type 0) : Type 0 where
  pub product_id : String
  pub clients : Dict Client
  pub order_book : OrderBook F
  pub published : List (OrderBook F)

module _ {F : Type 0} where
  unfoldable pub new_product : String → Product F
  new_product product_id = record {
    product_id = product_id;
    clients = [];
    order_book = empty_book;
    published = [];
  }

  unfoldable pub has_clients : Product F → ℕ
  has_clients p = length p.clients

  unfoldable pub append_client : Client → Product F → Product F
  append_client client p = record p { clients = Dict.assign client.client_id client p.clients }

  unfoldable pub remove_client : String → Product F → Product F
  remove_client client_id p = record p { clients = Dict.erase client_id p.clients }

  -- The loop over the changes: whether one of them updated the book, and the book.
  unfoldable pub update_all :
      Floating F → List (ProductChange F) → Bool × OrderBook F → Bool × OrderBook F
  update_all f [] (book_updated, book) = (book_updated, book)
  update_all f (pc ∷ pcs) (book_updated, book) =
      let (update, book') = update_order_book f pc book in
      update_all f pcs (if update then true else book_updated, book')

  -- `if(bookUpdated) m_publisher->publish(m_orderBook.get());`
  publish_if : Bool × OrderBook F → Product F → Product F
  publish_if (true, book) p = record p { order_book = book; published = push_back p.published book }
  publish_if (false, book) p = record p { order_book = book }

  unfoldable pub on_product_changes : Floating F → List (ProductChange F) → Product F → Product F
  unfolding publish_if update_all
  on_product_changes f [] p = p
  on_product_changes f (pc ∷ pcs) p = publish_if (update_all f (pc ∷ pcs) (false, p.order_book)) p
