-- ===== src/TxnMetadata/Message.antt =====
-- The travel rule metadata and the message that the receiver of a payment signs.
use client_sdk_python.Base.{ℕ, List}
use client_sdk_python.Bcs.Types.{Value, tuple_of, object, nil, cons}
use client_sdk_python.Bcs.Serializer.{byte_items}

abbrev pub address_of : List ℕ → Value
address_of bytes = object "AccountAddress" (cons (tuple_of (byte_items bytes)) nil)
