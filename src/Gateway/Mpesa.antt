-- ===== src/Gateway/Mpesa.antt =====
-- src/gateways/mpesa/gateway.ts: the gateway that checkout and settlement talk to. JavaScript's
-- conversions of values, the UTF-8 bytes of a text and `timingSafeEqual` are arguments.
use ticketing_app.Prelude.{
  ℕ, String, Bool, false, Option, none, some, List, [], ◌∷◌, ◌++◌, ◌==◌, ◌&&◌, not, if◌then◌else◌,
  length, str_eq, leb, all, take, drop,
}
use ticketing_app.Prelude.Int.{ℤ, pos, negsuc}
use ticketing_app.Schema.{SettlementOutcome}
use ticketing_app.Store.{Result, ok, err, bad_request}
use ticketing_app.Money.{cents_to_mpesa_amount, mpesa_amount_to_cents}
use ticketing_app.Payments.Settlement.{SettlementResult}
use ticketing_app.Checkout.Payment.{ChargeResult}
use ticketing_app.Checkout.Create.{ChargeRequest}
use ticketing_app.Gateway.Client.{
  Daraja, Request, StkPushParams, StkPushResponse, ◌>>=◌, ◌>>◌, pure, throw_if, stk_push,
}

-- mapResultCode
unfoldable pub map_result_code : ℤ → SettlementOutcome
map_result_code (negsuc _) = SettlementOutcome.failed
map_result_code (pos code) =
    if code == 0
    then SettlementOutcome.succeeded
    else if code == 1032
    then SettlementOutcome.cancelled
    else if code == 1037
    then SettlementOutcome.timeout
    else if code == 1019
    then SettlementOutcome.timeout
    else SettlementOutcome.failed

-- `string | number`
pub data Value : Type 0 where
  text : String → Value
  number : ℕ → Value

-- CallbackMetadataItem
pub record MetadataItem : Type 0 where
  pub name : String
  pub value : Option Value

-- `String(v)`, `Number(v)`, the code units of a text, `new Date(iso)` where `none` is an invalid
-- date, and a result code as text
pub record Reading : Type 0 where
  pub text_of : Value → String
  pub number_of : Value → ℕ
  pub units : String → List ℕ
  pub parse_iso : List ℕ → Option ℕ
  pub key_of : String → ℤ → String

abbrev is_digit : ℕ → Bool
is_digit c = leb b'0' c && leb c b'9'

-- from one index up to another
abbrev slice : ℕ → ℕ → List ℕ → List ℕ
slice from count raw = take count (drop from raw)

abbrev iso_of : List ℕ → List ℕ
iso_of raw =
    slice 0 4 raw
    ++ b'-' ∷ slice 4 2 raw
    ++ b'-' ∷ slice 6 2 raw
    ++ b'T' ∷ slice 8 2 raw
    ++ b':' ∷ slice 10 2 raw
    ++ b':' ∷ slice 12 2 raw
    ++ b'+' ∷ b'0' ∷ b'3' ∷ b':' ∷ b'0' ∷ b'0' ∷ []

-- parseTransactionDate
unfoldable pub parse_transaction_date : Reading → Value → Option ℕ
parse_transaction_date reading value =
    let raw = reading.units (reading.text_of value) in
    if length raw == 14 && all is_digit raw then reading.parse_iso (iso_of raw) else none

-- What `extractMetadata` returns
pub record Metadata : Type 0 where
  pub receipt : Option String
  pub amount_cents : Option ℕ
  pub phone : Option String
  pub transaction_date : Option ℕ

-- the `switch` of `extractMetadata`
abbrev read_item : Reading → String → Value → Metadata → Metadata
read_item reading name value found =
    if str_eq name "MpesaReceiptNumber"
    then record found { receipt = some (reading.text_of value) }
    else if str_eq name "Amount"
    then record found { amount_cents = some (mpesa_amount_to_cents (reading.number_of value)) }
    else if str_eq name "PhoneNumber"
    then record found { phone = some (reading.text_of value) }
    else if str_eq name "TransactionDate"
    then record found { transaction_date = parse_transaction_date reading value }
    else found

-- extractMetadata; a later item of a name overwrites an earlier one
unfoldable pub extract_metadata : Reading → List MetadataItem → Metadata → Metadata
extract_metadata reading [] found = found
extract_metadata reading (i ∷ is) found = elim i.value [
  | none ↦ extract_metadata reading is found
  | some value ↦ extract_metadata reading is (read_item reading i.name value found)
]

abbrev no_metadata : Metadata
no_metadata = record { receipt = none; amount_cents = none; phone = none; transaction_date = none }

-- StkCallback; `none` where the body has no such field
pub record StkCallback : Type 0 where
  pub checkout_request_id : Option String
  pub result_code : ℤ
  pub result_desc : Option String
  pub items : List MetadataItem

-- A SettlementResult with its key, less the merchant's reference and the raw body
pub record Delivery : Type 0 where
  pub result : SettlementResult
  pub phone : Option String
  pub dedupe_key : String

abbrev or_empty : Option String → String
or_empty none = ""
or_empty (some s) = s

unfoldable pub delivery : Reading → String → ℤ → String → Metadata → Delivery
delivery reading gateway_ref code desc found = record {
  result = record {
    gateway_ref = gateway_ref;
    outcome = map_result_code code;
    result_code = code;
    result_desc = desc;
    receipt = found.receipt;
    amount_cents = found.amount_cents;
    transaction_date = found.transaction_date;
  };
  phone = found.phone;
  dedupe_key = reading.key_of gateway_ref code;
}

-- `parseCallback`, where an empty id is none either
unfoldable pub parse_callback : Reading → StkCallback → Result Delivery
parse_callback reading callback = elim callback.checkout_request_id [
  | none ↦ err bad_request
  | some id ↦
      if str_eq id ""
      then err bad_request
      else ok (
          delivery reading id callback.result_code (or_empty callback.result_desc)
            (extract_metadata reading callback.items no_metadata))
]

-- `queryStatus` on the answer of the query
unfoldable pub queried : Reading → String → ℤ → Option String → Delivery
queried reading gateway_ref code desc =
    delivery reading gateway_ref code (or_empty desc) no_metadata

-- isValidCallbackToken; the secret is MPESA_CALLBACK_TOKEN
unfoldable pub is_valid_callback_token :
    (List ℕ → List ℕ) → (List ℕ → List ℕ → Bool) → Option (List ℕ) → Option (List ℕ) → Bool
is_valid_callback_token utf8 safe_equal none token = false
is_valid_callback_token utf8 safe_equal (some expected) none = false
is_valid_callback_token utf8 safe_equal (some expected) (some token) =
    not (length expected == 0)
    && length (utf8 token) == length (utf8 expected)
    && safe_equal (utf8 token) (utf8 expected)

abbrev charge_result : StkPushResponse → ChargeResult
charge_result r = record {
  gateway_ref = r.checkout_request_id;
  customer_message = some r.customer_message;
}

abbrev pub push_params : (String → List ℕ) → ChargeRequest → List ℕ → ℕ → StkPushParams
push_params units request description amount = record {
  phone = request.phone;
  amount = amount;
  account_reference = units request.reference;
  description = description;
}

abbrev pub of_result : {A : Type 0} → Result A → Request A
of_result r c = (r, c)

unfoldable pub charge_amount :
    (String → List ℕ) → Daraja → ChargeRequest → List ℕ → ℕ → ℕ → ℕ → Request ChargeResult
unfolding stk_push
charge_amount units daraja request description now later amount = do
  response ← stk_push daraja (push_params units request description amount) now later
  pure (charge_result response)

-- charge
unfoldable pub charge :
    (String → List ℕ) → Daraja → ChargeRequest → List ℕ → ℕ → ℕ → Request ChargeResult
unfolding charge_amount
charge units daraja request description now later = do
  throw_if (not (str_eq request.currency "KES")) bad_request
  amount ← of_result (cents_to_mpesa_amount request.amount_cents)
  charge_amount units daraja request description now later amount
