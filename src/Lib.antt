-- ===== src/Lib.antt =====
-- A model of the core of the Synology APM repository SDK and browser, with proofs.
--
-- The program reads deduplicated backup repositories. The SDK decodes the files of a repository
-- and caches what it reads; the browser shows a repository's tree in a terminal. The browser's
-- screens send events to stores; a store's `update` is a pure function from a model and an event
-- to the next model and the effects to run, and each effect's result comes back as an event.
--
-- Files, with the code that they follow (SDK stands for
-- packages/synology-apm-repo-sdk/src/synology_apm_repo/sdk, BROWSER for
-- packages/synology-apm-repo-browser/src/synology_apm_repo/browser):
--   Base      Shared types and lemmas: tests, lists, bit fields, big-endian bytes, CRC-32 as zlib
--             computes it, dictionaries and sets with totals over them, integers, text as code
--             points (decimal numbers, split at a character, UTF-8 and percent-decoding), slices
--             with a stride, and sums within a width.
--   Errors    SDK/errors.py: the exception classes, and results that may be one.
--   Format    SDK/format: Const (const.py), Address (addressing.py), Header (headers.py), ChunkMap
--             (chunkmap.py), Redundancy (redundancy.py), Composition (composition.py), Compression
--             (the type of compression.py), Bucket (bucket.py). A parser is a function from bytes
--             to a result, with its checks in the source's order. Bucket/SizeStore decodes a size
--             store the way the source does, by tables and strided slices; Bucket/Packed has the
--             records as 15 bits each; Bucket/Wide, Columns, Groups, Lanes and LaidOut lead from
--             one to the other in Bucket/Decode.
--   Cache     SDK/asynccache.py: AsyncKeyedCache as the steps that run between two awaits, so an
--             interleaving of tasks is a list of steps. `resolve` is split where it awaits: its
--             start, and the end of the fetch that it started.
--   Dedup     SDK/dedup/composition_reader.py (CompositionReader): reading a session's composition
--             data over its sub-files, which CompositionReader/Flat compares with one flat sequence;
--             CompositionReader/Pages records which pages of a chunk map are known.
--   Units     SDK/units/base.py (Node) and SDK/units/node_ref.py (Ref): the data of a node, its
--             address as a text, and the parse of that text.
--   Browser   BROWSER/core/keys.py (Keys) and BROWSER/core/unit (Unit): the store of the unit
--             screen, with one function per handler; Unit/Model has the model, the events and the
--             effects, Unit/Children and Unit/Goto the handlers, Unit/Update their dispatch.
--             Unit/Valid states the invariant, Unit/Good what a handler guarantees, Unit/Steps
--             shows it handler by handler, Unit/Stale and Unit/Run treat late results and runs,
--             Unit/Raises and Total exceptions, Unit/Paging a folder's pages, and Unit/Landing and
--             Landed a goto's end.
--             BROWSER/core/app (App): the store of export jobs, which run one at a time. App/Valid
--             states its invariant, App/Promote, Sound and Steps treat the handlers, App/Queue and
--             App/Progress a job's place in the queue over a run of events.
--             BROWSER/core/remote_data.py (RemoteData) and BROWSER/core/browse (Browse): the store of
--             repositories, catalogs, workloads and versions; Browse/Valid states its invariant,
--             Browse/Asked, Answers and Steps treat the handlers, Browse/NotHeld and Rescan what
--             comes late.
--   Tests     The theorems at concrete inputs, and a run of the repair.
--
-- Conventions. Numbers are naturals: the sizes, offsets and counters of this code are never
-- negative, and where the source takes an integer that may be (advance) the model does too. A
-- byte string is a list of numbers. A dictionary is a list of pairs and a frozenset a list, both
-- read through lookup and membership only, but for the cache's OrderedDict and the store's jobs,
-- whose order counts.
-- An exception is its class. A path is the list of its code points, and so is a text that is
-- parsed. An array of the `array` module is a list with its items' width checked where the source
-- would overflow; the machine's byte order is a parameter. What an event's sender guarantees (a
-- result comes only for an export that has started, a full check starts only while the slot is
-- free) is a predicate on the model and the event.
--
-- Fuel: `_id_layer_ancestors` runs on the id as fuel, which the theorem on it shows to be enough.
-- `read_at` runs on the number of bytes asked for, as each round reads at least one, and the loop
-- of `_note_page_end` on the number of pages, past which none is known. The digits of a number run
-- on the number, as each of them divides it by ten, and `range(start, stop, 2)` over the windows of
-- the redundancy trailer on the number of windows. Every other loop is structural.
--
-- Outside the model: effects and their runners, screens and widgets, storage backends, the
-- catalog's queries, compression and encryption, the content of units, JSON payloads of headers,
-- how a sub-file's path is resolved in a listing, the message texts of exceptions, and a coverage
-- of zero in the redundancy trailer, with which no caller calls (the source would divide by zero).
-- The time at which a waiting task resumes and the cancellation of a waiting task are not
-- modelled: they change no state of the cache.
pub mod Base
pub mod Errors
pub mod Format
pub mod Units
pub mod Cache
pub mod Dedup
pub mod Browser
pub mod Tests
