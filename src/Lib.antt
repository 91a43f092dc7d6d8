-- ===== src/Lib.antt =====
-- The NoPorts daemon for Arduino and ESP32, packages/arduino/lib/NoPorts/src.
--
-- The daemon listens for notifications of the atPlatform. A ping is answered with a heartbeat; a
-- session request (npt_request) names a host and a port near the device, and a rendezvous server
-- (rvd) over which the client reaches it. Who may do so is said by a list of managers, or by a policy
-- service that is asked over notifications. A session that is granted gets a relay, which carries its
-- connections between the rendezvous server and the local service.
--
-- Policy: noports_policy_limits.c. Atsign is the canonical form of an atSign, Cache the decisions that
--   are reused for 15 seconds, Cooldown the throttle of each sender, Wait the time limits of a check.
--   Atsign/Same says without the canonical form when two atSigns are the same.
--   Cache/Refine has the specification: a log of all stores, of which the cache remembers a part.
-- Permit: noports_daemon.cpp, the permit-open rules of _continueNptRequest. Port reads a port, Rules
--   matches a rule, Denial lists the rules in a denial.
-- Daemon: noports_daemon.cpp. Host is the interface to cJSON, the atSDK and RSA; State the record that
--   the handlers share. Notify routes a notification, Envelope checks a session request, Pending is the
--   one policy check in flight, Requests has _handlePing and _handleNptRequest, Response has
--   _handlePolicyResponse, the timeout of loop(), _handleDecryptFailure and _handleNotification.
--   Setup is _continueNptRequest: SigningKey is _checkClientSigningKey, Auth the relay's authentication,
--   Encryption the session keys, Denial the permit check and the text of a refusal, Respond the success
--   response, Continue the whole, whose result is the table of slots, what is sent and the session.
--   Slots is the search for a free relay, which corrects the state of the relays that it asks. Life is
--   loop and stop: Reconnect has the two reconnects with their failure counter, Loop a pass over
--   everything above, with the uses of the worker by the handlers and by the policy timeout.
--   Enrollment: noports_enrollment_signature.c. Uri is the form of a signing key's uri, Advert the keys
--   that a record advertises, Verify the check of an enrollment signature.
--   ClientKeys: noports_client_keys.cpp. ClientKeys itself is _checkClientKeys, Check _checkKey and
--   _withdrawn_to, Lookup _lookup_at and the percent-encoding of its url.
-- Relay: noports_relay.cpp. Forward is one direction of one connection, Sub a connection's slot and
--   its eviction, Sub/Service a pass of the loop of _relay_task_inner_multi over one connection and its
--   passes in a row (Run up to the end of the normal state, Drain from there), Connect
--   _handle_connect_msg, Session the control lines, the heap floor and the end of the loop, Start
--   noports_relay_start, Escr _escr_authenticate, Single the bridge of _relay_task_inner with _write_all,
--   Single/Poll its search for the control channel, Single/Whole both.
-- Examples runs the theorems on a small device.
--
-- A handler is a function from a state to a state and the list of what it does to the outside
-- (`Action`); logging is left out. A text is a list of bytes without its zero. Numbers are natural
-- numbers. `_now_ms()` is 64 bits and taken not to wrap, and it is one instant in one handler;
-- `millis()` is 32 bits, and its differences wrap as they do in C (`elapsed`). A policy request id wraps
-- at 2^32. There is no fuel: every loop is a recursion on a list. The constants are those of the plain
-- ESP32, not of the S3.
--
-- Memory is counted, not addressed: `live` is the number of blocks that are allocated, and a free takes
-- one off where its pointer is not NULL.
--
-- The JSON parser, the atSDK, RSA, base64, SHA-256, AES-CTR and the HTTP client are parameters, with what
-- the code relies on as laws: a string item has a value, a number in 1..65535 converts to itself, a
-- cipher may be fed a text in pieces, base64 and AES-CTR undo themselves, and a printed object is read
-- back; an RSA signature with a key of 2048 bits has 256 bytes. cJSON is taken to add every field to an
-- object that it made. Which allocations, sends, lookups and authentications succeed, and
-- what each socket does, are arguments too.
--
-- Not modelled: begin with the first authentication and the publishing of the device, the waits for free
-- heap in a reconnect, the connections of the single relay (_relay_task_inner), its connect: message and
-- its clean-up, the memory that the tear-down of a relay and of its authentication releases, and the
-- reading of key files. _findAtServer and _lookupSigningKey are parameters. A temporary buffer that one
-- function both allocates and frees is not counted in `live`.
pub mod Prelude
pub mod Policy
pub mod Permit
pub mod Relay
pub mod Daemon
pub mod Examples
