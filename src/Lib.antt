-- ===== src/Lib.antt =====
-- A model of the Diem client SDK for Python: its wire format, Binary Canonical Serialization (BCS),
-- and the off-chain protocol in which two wallets agree on a payment before it is settled on chain.
--
-- The parts and the files:
--   Base       shared names: Boolean tests and lists over the native numbers, `Outcome` (the result of
--              code that raises), integers, well-founded order, bits.
--   Bcs        diem/bcs, diem/serde_binary and diem/serde_types under src/. Words is
--              `int.to_bytes` and `int.from_bytes`; Parser is reading from `self.input`; Uleb the
--              lengths and variant indices; Types the type annotations and the Python values;
--              Serializer and Deserializer are `serialize_any` and `deserialize_any` with the methods
--              that they call. Fits is the abstract side: the values that belong to a type.
--              RoundTrip and Canonical hold the proofs in the two directions.
--   DiemTypes  src/diem/diem_types/__init__.py. Metadata, Transactions and State list the fields and the
--              variants of its classes, Classes is the registry that a forward reference is looked up
--              in, Codec the `bcs_serialize` and `bcs_deserialize` of every class.
--   Offchain   src/diem/offchain. Objects is what the generic code sees of a dataclass; PaymentTypes
--              the dataclasses of types/payment_types.py; State is state.py; PaymentState is
--              payment_state.py with Table, the machine as a table of statuses, and Progress, its runs;
--              WriteOnce is `validate_write_once_fields` with Respect, what it means; PaymentCommand is
--              payment_command.py; Accepts says when a command is valid, Deal what an update keeps,
--              Exchange what a sequence of valid commands is; NewCommand is `init` and `new_command`,
--              with Laws. Accepts/First is about the first command of a payment. Wallet, Limits
--              and Client are the part of client.py that processes an inbound payment: what the client
--              holds and asks, the currency and the limit, the rest; Client/Inbound is what a processed
--              payment has passed. Json is `to_dict`, `from_dict` and the objects of
--              types/command_types.py, with the constructors of error.py and reference_id_command.py:
--              Schema describes the fields of the classes, Load reads a dict by a description, Typed and
--              Plain say what an instance is and what is written of it, Command has the requests and
--              responses, Fields, Payment and Responses show that they are instances, Read gives the
--              attributes that the client uses. Wire is offchain/jws.py; Client/Requests is the rest of
--              client.py, the requests in and out, with EndToEnd and Response, from wallet to wallet
--              and back.
--   Jws        src/diem/jws.py, with Base64 and its Digits, RoundTrip, and Authentic, what a decoded
--              message has passed.
--   TxnMetadata  src/diem/txnmetadata.py: the constructors of metadata and `decode_structure`, with
--              Fields and RoundTrip and, for the message that a receiver signs, Message.
--   Identifier  src/diem/identifier. Text is what the code uses of `str`; Checksum, with Create, Detects
--              and Linear, and ConvertBits are the checksum and the regrouping of bits of bech32.py,
--              Bech32 its addresses, with Charset, the alphabet, RoundTrip and Detects; Account is the
--              account identifiers of __init__.py; DiemId is diem_id.py.
--   Utils      the addresses of src/diem/utils.py and src/diem/auth_key.py, with Hex, the hex form of
--              bytes, Addresses, the account addresses read from it, and Hashing, the hashes and signed
--              transactions.
--   JsonRpc    src/diem/jsonrpc/client.py. State is the last known state of the server, with Order;
--              Client is `_send_http_request`, the request strategies and `execute_without_retry`, with
--              Fresh, the states that any sequence of replies leads through; Retry is the retry loop;
--              Wait is `wait_for_transaction2`, with Ends; Domains is `get_vasp_domain_map`, with
--              Batches; Accounts is the queries that follow a child account to its parent, with
--              Parents and Keys; Queries is the calls of the get methods and `execute`, with Fresh; Submit is
--              `submit` and `wait_for_transaction`.
-- A request of one wallet is written by Json, signed by Jws and sent by Client/Requests; the other
-- wallet reads it there and gives the payment to Client, whose checks end in PaymentCommand.
-- The parts meet in addresses: an account identifier is a bech32 address over the bytes of Utils, and
-- the metadata of TxnMetadata are the classes of DiemTypes written by Bcs.
-- Offchain/Client joins the identifiers, the account queries, the payment command and the message of
-- TxnMetadata that the receiver signs.
-- The Tests modules run the definitions on concrete data.
--
-- How state and errors appear. The serializers write to a buffer; here a method returns the bytes that
-- it appends. The deserializers read from a buffer; here a method takes the bytes that are left and
-- returns what it leaves. An exception is the `err` of an `Outcome`. The numbers are unbounded as in
-- Python. `container_depth_budget` is an argument: `increase_container_depth` takes one for the
-- fields of an object, and `decrease_container_depth` gives it back at the end; the budget of a
-- serializer is 500, and it is also what makes the recursion through the classes end, so no other fuel
-- is there. The loop of `get_vasp_domain_map` has as many rounds as it is given, and more rounds than
-- the stream has events are enough for a batch size that is not zero; the queries that follow a parent
-- make as many calls as they are given, and two are enough where no parent has a parent; the loop of
-- `_convertbits` over complete groups has a round for each bit. ULEB128 is read in the five rounds of the
-- source's `range(0, 32, 7)`.
--
-- Conventions. An instance of a class is the list of the values of its fields, in order. States of the
-- payment machine are compared by their ids, which differ. Python's UTF-8 codec is a parameter, the
-- record `Utf8`, with its documented laws as `Utf8Laws`. Fields of the off-chain objects have the types
-- that the dataclasses declare. A `str` of an identifier is the list of its code points, and what
-- `str.lower` and `str.upper` do outside ASCII is left open by the record `StrCase`. The replies of a
-- server, and which of two concurrent requests is completed first, are given to the client's functions
-- as values; a lock makes each update of the last known state one step. What an off-chain client asks
-- of the chain and of Ed25519, and the product of a float rate and an amount, are fields of `Wallet`;
-- the bound on the calls to a parent is Python's recursion limit there. The JSON-RPC client of an
-- off-chain client is the asynchronous one, whose queries are those of JsonRpc/Accounts.
--
-- A dataclass is described by its fields, as a finite tree: the classes of the protocol do not refer to
-- themselves, and `from_dict` recurs over the description. The json module is the record `JsonCodec`,
-- and `Carries` is what one message relies on: its text is encoded and read back, and its signature
-- verifies. base64 is modelled with what it skips, UUID_REGEX as its groups of digits. An instance that
-- is loaded is used through Offchain/Json/Read, where True and False are the integers 1 and 0, as they
-- compare in Python; so `validate_write_once_fields` does not see the one pair of types that a loaded
-- payment can still mix, a boolean against an integer, for which the source raises a TypeError.
--
-- Not modelled: dictionaries in BCS (no class of diem_types has one), `int()` on a text, which counts as
-- a type error, the texts of error messages and logs, intent identifiers, which urllib takes apart,
-- the hexadecimal form of metadata and the search for a refund event, the asynchronous copy of the
-- JSON-RPC client, the parsers of its replies, which fill protobuf objects, the generated script
-- builders in src/diem/stdlib, the mini wallet and the test suites. The hash of hashlib is given.
pub mod Base
pub mod Bcs
pub mod DiemTypes
pub mod Identifier
pub mod JsonRpc
pub mod Jws
pub mod Offchain
pub mod TxnMetadata
pub mod Utils
