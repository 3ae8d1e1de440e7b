-- ===== src/Lib.antt =====
-- AddressablesToolsPy: a parser of Unity Addressables catalogs (src/addressablestools, in Python),
-- modelled and verified.
--
-- The parser reads a catalog from JSON text or from bytes. A JSON catalog has its tables as base64
-- texts: buckets, which have the place of a key and the numbers of its locations; keys; and locations,
-- which point into lists of texts and types. `parse_json_catalog` decodes them in this order and turns
-- what goes wrong into a CatalogParseError. `parse_binary_catalog` makes a reader over the bytes, reads
-- the header, and then, at the offsets that the header gives, strings, arrays of offsets, provider
-- data and the table of resources: pairs of a key and a list of locations. Everything in a binary
-- catalog is found by absolute offsets and shared, so the reader caches what it has read. Values are
-- decoded by the name of their type, by custom decoders of a registry or as built-in types. The
-- resource table is decoded by Python or by a compiled extension, by the backend that is asked for.
--
-- The files, and the code that they model:
--   Prelude              names of the libraries, Boolean tests, lists, integers, dictionaries,
--                        and the pigeonhole principle that bounds the loops
--   Python/Exec          exceptions (src/addressablestools/exceptions.py), and code that changes a
--                        state and may raise; Exec/Keeps has the rules for invariants,
--                        Exec/Ensures those for what holds after a return,
--                        Exec/Agree those for code that does the same
--   Python/Stream, Struct, Codec, Base64
--                        io.BytesIO, struct, bytes.decode and base64.b64decode of Python, as far
--                        as the code uses them
--   Python/Json          what json.loads gives, and int(), bool() and str() of it
--   Python/Result        code that may raise and changes nothing
--   Models/Object, Models/Catalog
--                        src/addressablestools/models.py
--   Binary/Reader        class BinaryReader of src/addressablestools/binary.py
--   Binary/State         class CatalogBinaryReader of binary.py, its fields and its object cache
--   Binary/Strings       its strings: read_encoded_string and the two methods under it;
--                        Wire and Encoded have them as functions of the bytes alone
--   Binary/Arrays        its offset arrays and serialized types
--   Binary/Header        class CatalogBinaryHeader of binary.py
--   Backend              src/addressablestools/_native.py
--   Binary/Stable        the invariants that the reader keeps, by the parts of its state
--   Decoder/Registry     class DecoderRegistry of src/addressablestools/decoder.py
--   Decoder/Names, Decoder/Object
--                        class SerializedObjectDecoder of decoder.py, for binary catalogs
--   Decoder/Version1     its version 1 values, those of JSON catalogs
--   Decoder/Json         its options in JSON text
--   Catalog/Locations, Catalog/Resources, Catalog/Parse
--                        the binary half of src/addressablestools/catalog.py
--   Catalog/Backends, Sharing, Cycles, Depth, Kept, Sound, Caches
--                        proofs on the same code
--   Catalog/Json         the JSON half of catalog.py: Fields, Buckets, Texts, Keys, Prefixes,
--                        Records, Locations, Resources and Parse have the code, the other
--                        modules the proofs
--   Parser               src/addressablestools/parser.py
--   Models/Keys          the keys of a table of resources
--   Compat/Registry, Values, Snapshot, Parse, Cached, Dependencies
--                        src/AddressablesTools.py, the interface with the old names; Handler,
--                        Sharing, Entries, Fresh and Copies are proofs on it
--   Tests                concrete runs, and instances of the theorems
--
-- How the model stands for the code. A method is a function of the same name from the state before to
-- a result and the state after; what was written before an exception stays written. Bytes are lists of
-- numbers, texts lists of code points, dictionaries lists of pairs in the order of their first writes,
-- as in Python. A resource location is shared between the lists that hold it, so
-- an object is its place among the locations that were made. Messages of exceptions are left out.
--
-- Bounds and fuel. Integers of the wire are of 16, 32 or 64 bits, little-endian, with two's complement
-- written out. The loop over the parts of a dynamic string has as many rounds as the source has bytes:
-- each round visits an offset below that length, and none twice. The loop over the aliases of a
-- registry has as many rounds as there are aliases, for the same reason. The recursion over the
-- dependencies of a location takes the number of nested calls that are allowed, which stands for the
-- limit on Python's stack, and raises RecursionError beyond it; calls of other methods are not counted.
--
-- Not modelled: in the compatibility layer src/AddressablesTools.py, the properties that only read a
-- field under its old name, and Type and Object of a wrapped value; and the extension in Rust, whose
-- entry points are parameters. Of Python, these are parameters: json.loads, int() of texts and of
-- floats, str() of JSON values and keys that are no texts, the truth of a float, and hash.
pub mod Prelude
pub mod Python
pub mod Models
pub mod Binary
pub mod Backend
pub mod Decoder
pub mod Catalog
pub mod Parser
pub mod Compat
pub mod Tests
