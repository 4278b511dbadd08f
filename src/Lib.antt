-- ===== src/Lib.antt =====
-- OpenKey: how its API lets an owner approve, sign for and decline what others ask for.
--
-- Device authorization. A command-line client starts a device transaction with its session key, the
-- hashes of two secrets and the permissions it asks for, and prints a user code. The owner looks the
-- code up in a browser and approves all or a part of the request; the browser posts a delegation
-- that it has encrypted to the client's relay key. The client polls with its two secrets until it
-- gets that result, and acknowledges it, which spends it.
-- Approval requests. A requester shares a sealed link; whoever opens it registers the request. The
-- owner approves it with a signed message, whose result is encrypted to the requester and stored
-- under a random reference, or declines it. The requester discovers, fetches and acknowledges the
-- result, each time with a session proof that its session key signed.
-- Prepared handoffs. A client prepares a message to sign and hands a ticket to the owner's browser.
-- The account claims it, binds it to an authorization context and a key, reserves it for one
-- signing, and completes it; it can be cancelled until then.
-- Consent review. What is to be signed is shown as grants with actions that the owner can deselect;
-- a check compares the narrowed model with the one that was shown.
-- The approvals use the session DIDs of device authorization and the session proof of native
-- delegation; the handoffs use the texts and the JSON values of both.
--
-- Files and code, by paths from the repository's root:
--   Device/Types      the records and constants of apps/api/src/services/device-authorization.ts
--   Device/Platform   what that file takes from outside the repository, as one record of parameters
--   Device/Store      MemoryDeviceAuthorizationStore, one function per method
--   Device/Jwk        publicSessionJwk, publicRelayJwk, sessionDidForPublicJwk, strictSessionDid,
--                     and base58btc (Jwk/Base58)
--   Device/Scope      deviceRequestPermissions, with deviceSpaceIdentity (Scope/Space), the paths of
--                     apps/api/src/services/tinycloud-path-policy.ts (Scope/Paths) and
--                     approvedPermissionSubset (Scope/Approved)
--   Device/UserCode   normalizeUserCode, displayUserCode, randomUserCode and the loop of start
--   Device/Start      the checks of start, requestReason, requestedTtlSeconds, canonicalOrigin
--   Device/Relay      validateRelayApproval
--   Device/Service    DeviceAuthorizationService: start (Service/Begin), assertDelegationWindow and
--                     lookup (Service/Window), approve (Service/Approve), poll and acknowledge
--                     (Service/Poll)
--   Device/Flow       the methods one after another
--   Device/System     histories of the store's operations, each made by a method at one of its
--                     awaits, as a step relation, the methods as histories (System/Calls), and what
--                     every history keeps
--   Native/SessionProof  verifySessionProofClaims of
--                     apps/api/src/services/native-delegation/session-proof.ts
--   Approvals/Types   the records and errors of apps/api/src/services/approval-results.ts
--   Approvals/Store   createPrismaApprovalRequestStore of
--                     apps/api/src/services/approval-request-store.ts, over the rows of its table
--   Approvals/Service ApprovalResultService: assertDelegationWindow (Service/Window), approve
--                     (Service/Approve), discover, deny, fetch and acknowledge (Service/Results)
--   Approvals/System  histories of the table, and what the methods promise of them
--   Handoff/Types     the records and errors of apps/api/src/services/prepared-handoff.ts
--   Handoff/Store     MemoryPreparedHandoffStore, one function per method
--   Handoff/Service   PreparedHandoffService: claim (Service/Claim), assertRequest, bindContext,
--                     bindOwnerRevocation and assertContext (Service/Context), reserveSigning,
--                     completeSigning, cancelClaimed and cancel (Service/Signing), and digestJwk of
--                     apps/api/src/services/authorization-signing.ts
--   Handoff/System    histories of the table, and what the methods promise of them
--   Review            model.ts (Model), ids.ts (Ids), restrict.ts (Restrict) and subset.ts (Subset,
--                     Multiset) of packages/capability-review/src
--   Demo modules      tests and concrete inputs of each part
--   Common, Text, Json   helpers: results with early return, texts over characters, JSON values
-- The Laws modules and those named for a property hold the proofs.
--
-- Representation. A Date is its milliseconds since 1970, a natural number. A method takes its
-- readings of the clock and its random values as arguments, and returns the store after it with its
-- result; a throw is an error with its code and status, without its message. The Map of a memory
-- store is the list of its values in insertion order, and a table is the list of its rows. A
-- JavaScript number is a whole number or one of the others. The stored result is the envelope of a
-- device transaction, and the envelope's text of an approval. A start takes the stores that its
-- count, its draws, its sweep and its write meet, and the two approve methods are a reading part and
-- a writing part, with any other operations in between; the other methods of Device and Approvals
-- read and write one store. A method of Handoff takes the table that each of its awaits meets. In a
-- history, the ids drawn for device transactions are new.
--
-- Fuel. push_carry of base58btc takes the carry as its fuel: each round at least halves the carry,
-- so that it never runs out. The loop that draws user codes is recursion on the list of its rounds; it
-- answers none as long as it draws.
--
-- Parameters. SHA-256, base64url, URL, the siwe package, Date texts, Unicode tables, localeCompare,
-- JSON.parse and JSON.stringify, Ed25519, ethers and the encryption of a result are fields of
-- Platform, ProofPlatform, ApprovalPlatform, HandoffPlatform and JsonText, about which nothing is
-- assumed, except for the two theorems on user codes: capitals, digits and hyphens are their own
-- upper case.
--
-- Not modelled: the Prisma stores of device-authorization-store.ts and prepared-handoff-store.ts;
-- validateRequest and ownerRevocation of the handoffs; the rest of native delegation; the signing
-- services, the routes, the web application and the SDK packages; the texts of error messages; the
-- checks in the services' constructors.
pub mod Common
pub mod Device
pub mod Native
pub mod Approvals
pub mod Handoff
pub mod Json
pub mod Text
pub mod Review
