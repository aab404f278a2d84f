-- ===== src/Lib.antt =====
-- nlboot: the reference implementation of a local-first boot protocol, in Python under src/nlboot.
--
-- A device makes a key and proves possession of it by signed claims (device.py). A registry issues
-- single-use enrollment codes that are bound to a claim, and exchanges a code and a claim for a
-- session credential; a binding also renders the payload of an enrollment token (enrollment.py).
-- Boot manifests, their boot menus and the tokens are documents that are read with all checks, and a
-- manifest and a token give a boot plan that is never executed (protocol.py). Manifests and trust
-- bundles are signed by trusted keys with a life cycle (verify.py). The command nlboot-plan puts
-- these together (cli.py). Three scripts under tools/ stand beside this: they check the life-cycle
-- contracts and the boot evidence schema, and write an SBOM from cargo's metadata.
--
-- Files and the code that they model:
--   Base              shared helpers: tests, lists, integers, dictionaries, and code that may raise
--                     as a result type, with a rule for each way to build it
--   Text, Json, Time, Hex   what the source uses of str, json, datetime and bytes; of Json, Dump is
--                     compact `json.dumps` with sorted keys, Pretty the indented one, Canonical
--                     objects with members in another order, and Units, Escape, Write, Shown,
--                     Numbers, Injective and Faithful lead to what a text determines of its value;
--                     of Time, Calendar and Iso are `isoformat` for times in UTC, Utc an instance
--                     of the interface below, and Stamp is about the replaced offset,
--                     Rfc3339 is the format "date-time" and Stamped is about stamps and that format
--   Crypto            the cryptography package and hashlib, as an interface with documented laws
--   Protocol          src/nlboot/protocol.py: Errors, Modes (the literal types), Checks, Entry
--                     (BootMenuEntry), Menu (BootMenu), Manifest (SignedBootManifest), Token
--                     (EnrollmentToken) and Plan (BootPlan, build_boot_plan; Contract is a plan by its
--                     fields); each has its laws below; Sorted is about documents with members in
--                     another order
--   Device            src/nlboot/device.py: DeviceIdentity and DeviceClaim; Keys is about the
--                     texts of keys and their fingerprints, Claims about `verify` and `make_claim`,
--                     Own about the claims of a generated identity, Persisted about one that is
--                     stored, Documents about `from_dict` and `to_dict`, Binding about the payload
--                     that is signed; Schema is schemas/device-claim.schema.v0.1.json, and Conforms
--                     is about the documents that are written and that schema; Stamps is about times
--   Verify            src/nlboot/verify.py: Lifecycle (one key, one signature), Keys (documents of
--                     trusted keys), Bundle (trust bundles), Payload (what a
--                     signature leaves out), Sorted (documents with members in another order)
--                     and Binding (what a signature binds)
--   Enrollment        src/nlboot/enrollment.py: Credential (a session's, by its fields),
--                     Redeem, Issue, Invariant, Trace (sequences of calls),
--                     Overflow and Refine (the registry as a machine of unknown, open and spent
--                     codes), Lifetime (times, and codes that stay redeemable), Elsewhere and
--                     Commute (calls for different codes), Bridge (from a binding's token payload to
--                     a plan) and Boot (from a device's identity to its plan)
--   Cli               src/nlboot/cli.py: Verified (verify_manifest_document), Now (the text of `--now`),
--                     Main (main), Enrolled (from an issued code to the printed plan), Bound (two
--                     manifests with one payload)
--   Tools             tools/: Lifecycle (validate_lifecycle_contracts.py; Documents is what it asks of
--                     a document, Laws of the groups of requirements, Runs of the script), Schemas
--                     (validate_contract_schemas.py; Keys is about its tests of keys) and Sbom
--                     (cargo_metadata_to_spdx.py; Values is Python's operations on values of any
--                     type, Named the name and version of a package, Roots the sorted set of root
--                     ids, Laws the loops that collect them, Packages which packages can be listed,
--                     Edges and Relations the relationships, Document what is written, Deterministic
--                     that order does not matter to it)
--   Examples          concrete instances of the interfaces, tests, and the theorems at concrete inputs
--
-- How code becomes definitions. A function that raises returns a `Result`, with a constructor for
-- each message of the module's exception class and one for each other exception that can escape.
-- The registry is a dictionary that `issue` and `redeem` take and return. The clock and the random
-- values are arguments. A `datetime` is the number of microseconds since the year 1 in UTC, since
-- the source brings every time to UTC at once; an addition past the year 9999 overflows. A JSON value
-- is a tree; numbers stay as texts, since the source never computes with them. All loops are over
-- lists that are given; the one search with fuel is that for the year of a day in Time/Calendar,
-- which starts at the number of 366 days in it: no year up to 9999 is 30 years further on.
--
-- Interfaces. `IsoFormat` is datetime's `fromisoformat` and `isoformat`, with the documented facts
-- that the one reads what the other writes and that the format begins with a digit and has no `Z`;
-- Time/Utc fills it with Python's `isoformat` and a reader of the texts that this writes, where
-- Python's `fromisoformat` reads others too.
-- `Crypto` has no laws; `RsaLaws` states those of one RSA key and `StoredLaws` that its PEM text loads
-- again, and the theorems that need them say so.
--
-- Not modelled: argparse, the text that Python's `str` gives for values that are no texts and its
-- `==` on them (parameters, so the theorems hold for every choice of them), the contents of files
-- before `json.loads`, the lines that the scripts of tools/ print, RSA itself, and the directory that
-- the SBOM is written to. The Rust client is another program with its own tests; the other
-- schemas, the examples and the fixtures are data, and src/nlboot/__init__.py only re-exports names.
pub mod Base
pub mod Text
pub mod Json
pub mod Time
pub mod Protocol
pub mod Hex
pub mod Crypto
pub mod Device
pub mod Verify
pub mod Enrollment
pub mod Cli
pub mod Tools
pub mod Examples
