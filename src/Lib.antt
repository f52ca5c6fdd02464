-- ===== src/Lib.antt =====
-- Verification of crypto-go, a library of wrappers around cryptographic primitives with a strict
-- CBOR codec of its own. Paths are those of the repository.
--
-- The parts. Package cbor (cbor/cbor.go) is the wire format: an Encoder that appends to a buffer, a
-- Decoder with a cursor over a byte string, and Verify and skipObject, which walk nested items. Its
-- reflection layer (cbor/reflect.go) calls the methods of Encoder and Decoder for every value it
-- meets; a Go type is a code (Ty), its values are Val, and a struct's fields carry their tags.
-- Package stream (stream/stream.go) is chunked encryption: EncryptWriter, EncryptReader and
-- DecryptReader keep a buffer and a nonce counter between the calls, DecryptReaderAt keeps the last
-- chunk that it has opened, and all take the AEAD
-- (chacha20poly1305) and the underlying io.Writer and io.Reader as parameters. What the proofs use
-- of the AEAD is the record AeadLaws. Package cose (cose/cose.go) signs and encrypts: its structs are
-- codes of Go types with the struct tags of the source, which Marshal and Unmarshal of the reflection
-- layer work on, and the keys of the packages xdsa and xhpke are parameters (Signer, Verifier, Sealer
-- and Opener), with KeyPair and SealPair for what a matching pair does. The packages xdsa, mldsa and
-- eddsa (under their own names, with internal/base64ext) are such keys: xdsa composes a key of each of
-- the other two, which wrap circl's mldsa65 and crypto/ed25519. Those libraries, the hashes and base64
-- are the record Primitives, and PrimitiveLaws is what the proofs use of them. An array of n bytes is
-- a byte string of that length. Package pem (pem/pem.go) frames a blob as
-- text, over the same base64 (its record Base64, with Base64Laws). Go's int is taken to be 64 bits wide. The error values are
-- kept, the details that fmt.Errorf adds to them are not. A byte is a number below 256, a byte
-- string a list of them, an int64 an integer by its sign and magnitude (in Stream.Size, its two's
-- complement). The io.Reader under a reader is the bytes that it still delivers and the error
-- behind them.
--
-- Base                 names, lists, bit masks and integers that all parts share
-- Cbor.Types           constants, errors and number ranges of cbor/cbor.go
-- Cbor.BigEndian       encoding/binary's big-endian numbers
-- Cbor.Utf8            unicode/utf8's Valid
-- Cbor.Encoder         NewEncoder and the Encode methods, encodeLength
-- Cbor.Decoder         NewDecoder, Finish and the Decode methods, decodeHeader, readBytes
-- Cbor.Verify          mapKeyCmp, skipObject, Verify, verifyObject
-- Cbor.Layout, Header  the layout of a header, and decodeHeader against it
-- Cbor.Cursor, Soundness, Methods, Codec
--                      what a method reads, and the methods of Encoder and Decoder in pairs
-- Cbor.KeyOrder        the order of map keys
-- Cbor.Item, Accepts, Grammar, Canonical
--                      the strict subset as a grammar, and Verify against it
-- Cbor.Skip            skipObject against verifyObject
-- Reflect.Types        the Go types and values that cbor/reflect.go distinguishes
-- Reflect.Tags         isOptionType, structFields, wantArray, mapFields, arrayFields
-- Reflect.Marshal      Marshal, encodeValue
-- Reflect.Unmarshal    Unmarshal, decodeValue
-- Reflect.Sorting, Encodable, Canonical, Output
--                      the keys of a struct in order, and what Marshal writes
-- Reflect.Numbers      integers through Marshal and Unmarshal
-- Reflect.Shape, Following, Plain, Trip, Layouts, RoundTrip
--                      the same layout for both sides, and Unmarshal after Marshal
-- Reflect.Typed, Keeping, WellTyped
--                      what decodeValue leaves in a variable
-- Cose.Outcome, Types  results, constants and structs of cose/cose.go
-- Cose.Drift           the drift between two times
-- Cose.Sign            Sign, SignAt, SignDetached, SignDetachedAt, signAt, signDetachedAt
-- Cose.Verify          Verify, VerifyAt, their detached forms, Signer, Peek
-- Cose.Encrypt         Seal, SealAt, Encrypt, Open, OpenAt, Decrypt, Recipient
-- Cose.Accepting       what verify accepts, as a predicate
-- Cose.Wire, Layout    the structs on the wire
-- Cose.RoundTrip, Sealing, Agreement, Separation, Distance
--                      signing with verifying, sealing with opening, and the checks on their own
-- Keys.Primitives, Laws
--                      the libraries under the keys
-- Keys.Text            DecodeString of internal/base64ext/base64ext.go, texts and CBOR of arrays
-- Keys.Mldsa, Eddsa    the keys of mldsa/mldsa.go and eddsa/eddsa.go
-- Keys.Xdsa, XdsaText  the composite keys and signatures of xdsa/xdsa.go
-- Keys.Parsing, Signing, Exchange, Pair
--                      bytes, signatures, texts and CBOR; the keys with the package cose
-- Pem.Scan, Codec      Decode and Encode of pem/pem.go
-- Pem.Finding, RoundTrip, Safety
--                      searches in composed strings, Decode after Encode, and slices in range
-- Stream.Types, Nonce, Size
--                      constants, the nonce counter, EncryptedChunkCount and PlaintextSize
-- Stream.Writer        EncryptWriter
-- Stream.Reader        DecryptReader
-- Stream.Sealed        what a sealed message is, independent of the code
-- Stream.Filling, Writing
--                      EncryptWriter against Stream.Sealed
-- Stream.Progress, Opening, Reading, Draining
--                      DecryptReader against Stream.Sealed
-- Stream.EncryptReader EncryptReader
-- Stream.Feeding, Encrypting
--                      EncryptReader against Stream.Sealed
-- Stream.ReaderAt      DecryptReaderAt
-- Stream.Places, Fetching, RandomAccess, Starting
--                      DecryptReaderAt against Stream.Sealed
-- Stream.Length, Unique, RoundTrip
--                      the sealed message of a plaintext; writers and readers together
--
-- Loops. `for range value` counts the rounds left, and the nesting depth is the measure of the
-- recursion, so no fuel is chosen: every function there is total. The loop of EncryptWriter.Write
-- has fuel for one round more than the bytes written, which is enough since only the first round
-- may take none. The loop of pem's Encode has a round for every byte of the text, which is enough
-- since a line takes at least one; that of ReadAt has one for every byte of the buffer.
--
-- Standard library. encoding/binary, unicode/utf8, slices.Compare, slices.SortFunc, strings.Split,
-- strconv.ParseInt, the searches of package bytes and the setters of reflect.Value are written out.
--
-- Not modelled: the capacity of buffers and the copies of slices (a slice is its bytes), types that
-- implement Marshaler or Unmarshaler, what a failed Unmarshal leaves in its variable,
-- the atomic pointer of DecryptReaderAt under concurrent calls, the DER and PEM forms of
-- keys and the random choice of their seeds, certificates,
-- and the packages that only call cryptographic primitives.
pub mod Base
pub mod Cbor
pub mod Reflect
pub mod Stream
pub mod Cose
pub mod Keys
pub mod Pem
