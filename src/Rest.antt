-- ===== src/Rest.antt =====
-- services/bot-fleet-manager/internal/bot/rest/generator.go: the REST messages of a bot. The time and
-- the random bytes are parameters; the JSON of an order is the record that is encoded.
pub mod Identity
use iicpc.Prelude.Decimal.{decimal}
use iicpc.Prelude.{ℕ, ◌+◌, ◌%◌, Option, none, some, List, [], ◌∷◌, ◌++◌, take, drop, String}
use iicpc.Artifact.{Text}
use iicpc.Contestants.{encode_to_string}

pub record RestGenerator : Type 0 where
  pub benchmark_run_id : Text
  pub bot_id : Text
  pub seq_num : ℕ

-- `orderBody`; prices are whole numbers of a common unit, and 0 is left out of the JSON.
pub record OrderBody : Type 0 where
  pub request_id : Text
  pub cl_ord_id : Text
  pub seq_num : ℕ
  pub send_time_ns : ℕ
  pub symbol : String
  pub side : String
  pub ord_type : String
  pub qty : ℕ
  pub price : ℕ

pub data Method : Type 0 where
  post delete : Method

pub record RestMessage : Type 0 where
  pub method : Method
  pub path : Text
  pub body : Option OrderBody
  pub request_id : Text
  pub cl_ord_id : Text
  pub seq_num : ℕ
  pub send_time_ns : ℕ

-- An unsigned counter of 64 bits, which the atomic addition wraps around.
unfoldable pub next_seq_num : RestGenerator → ℕ
next_seq_num g = (g.seq_num + 1) % 18_446_744_073_709_551_616

abbrev pub dash : Text → Text → Text
dash a b = a ++ 45 ∷ b

-- `clOrdID`.
unfoldable pub cl_ord_id : RestGenerator → ℕ → Text
cl_ord_id g seq = dash g.benchmark_run_id (dash g.bot_id (decimal seq))

-- The version and the variant, of the bytes 6 and 8.
abbrev pub marked : List ℕ → List ℕ
marked (b0 ∷ b1 ∷ b2 ∷ b3 ∷ b4 ∷ b5 ∷ b6 ∷ b7 ∷ b8 ∷ bs) =
    b0 ∷ b1 ∷ b2 ∷ b3 ∷ b4 ∷ b5 ∷ (b6 % 16 + 64) ∷ b7 ∷ (b8 % 64 + 128) ∷ bs
marked bs = bs

-- `newRequestID`, from 16 random bytes.
unfoldable pub new_request_id : List ℕ → Text
unfolding encode_to_string
new_request_id random =
    let b = marked random in
    dash (encode_to_string (take 4 b)) (
      dash (encode_to_string (take 2 (drop 4 b))) (
        dash (encode_to_string (take 2 (drop 6 b)))
          (dash (encode_to_string (take 2 (drop 8 b))) (encode_to_string (drop 10 b)))))

-- What a call draws from the world.
pub record World : Type 0 where
  pub now : ℕ
  pub random : List ℕ

-- "/v1/orders".
abbrev pub orders_path : Text
orders_path = 47 ∷ 118 ∷ 49 ∷ 47 ∷ 111 ∷ 114 ∷ 100 ∷ 101 ∷ 114 ∷ 115 ∷ []

-- `PlaceOrder`.
unfoldable pub place_order :
    World → String → String → ℕ → ℕ → RestGenerator → RestGenerator × RestMessage
place_order w side ord_type qty price g =
    let seq = next_seq_num g in
    let cid = cl_ord_id g seq in
    let rid = new_request_id w.random in
    (
      record g { seq_num = seq },
      record {
        method = post;
        path = orders_path;
        body = some (record {
          request_id = rid;
          cl_ord_id = cid;
          seq_num = seq;
          send_time_ns = w.now;
          symbol = "AAPL";
          side = side;
          ord_type = ord_type;
          qty = qty;
          price = price;
        });
        request_id = rid;
        cl_ord_id = cid;
        seq_num = seq;
        send_time_ns = w.now;
      },
    )

-- `CancelOrder`.
unfoldable pub cancel_order : World → Text → RestGenerator → RestGenerator × RestMessage
cancel_order w cid g =
    let seq = next_seq_num g in
    (
      record g { seq_num = seq },
      record {
        method = delete;
        path = orders_path ++ 47 ∷ cid;
        body = none;
        request_id = new_request_id w.random;
        cl_ord_id = cid;
        seq_num = seq;
        send_time_ns = w.now;
      },
    )
