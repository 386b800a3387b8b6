-- ===== src/Lib.antt =====
-- The relay of the PON network (proof-relay, Go): what it does with the bids of builders, with the
-- requests of proposers and with what its beacon nodes tell it.
--
-- The program. Builders post bids for a slot to the relay (relay/relay.go). A bid that passes its
-- checks is stored on the bid board (bids/bids.go, in Redis), and the board holds an auction. A
-- proposer asks for the header of the winning bid, signs a blinded block and asks for the payload,
-- which the relay fetches from the builder. Bounty bids come after the slot has begun and have to
-- offer twice the winning bid. Who may bid is read from Redis, where a loop (utils/relayUtils.go)
-- writes what the registry of the pool (ponPool/ponpool.go) says. The slot, the proposers and the
-- randaos come from several beacon nodes behind one client (beaconinterface/).
--
-- The files, and what they model:
--   Base, Base/*       names and tests that all share; `Action`, a call that returns a value or an
--                      error beside the state, which stays changed when it fails
--   Text, Text/*       Go strings as bytes, decimal numerals, `ParseInt`, `SetString` and base64
--   Map                Go maps as association lists
--   Redis, Memory      the Redis client as an interface with laws, redisPackage/redis.go over it, and
--                      a server in memory that meets the laws
--   Bids               bids/bids.go and bids/types.go: one function per method of BidBoard, on
--                      `BoardState`, the Redis store and the messages for the bulletin board. The range
--                      over a Go map is a list of the reply in any order. Keys has the Redis keys, Loop
--                      the loop of the auction, Order, Auction, Storage, Winner and Bounty the theorems
--   Beacon             beaconinterface/multiclient.go, multiFetch.go, multiPost.go and multiclientSub.go:
--                      Performance and Order are the order of the clients and waitSynced, Fetch and
--                      FirstAnswer the calls that ask one node after the other, Head the two event
--                      loops, Duties the maps of validators, proposers and randaos, Attributes that of
--                      payload attributes, Publish PublishBlock, Alive ensureClientsAlive. Node is the HTTP side of one node
--                      (beaconinterface/client), with Forks GetForkVersion and Subscribed the subscriptions. The goroutines
--                      of a head event are returned as tasks
--   Registry           utils/relayUtils.go and `chunkSlice` of utils/types.go; Registry/Pool and
--                      Registry/Subgraph are ponPool/, Registry/Updates the updates with Redis and the database,
--                      from the start of the relay on in Registry/Updates/Restart
--   Relay              relay/relay.go and relay/utils.go: Bid and Submit are handleSubmitBlock, BountyBids
--                      handleBountyBids, Header handleProposerHeader, Payload handleProposerPayload,
--                      Request sendHTTPRequest, Info the handlers that tell what the relay is, TestApi
--                      relay/relay_test_api.go. A handler is a sequence of steps on `RelayState`; each step
--                      may write a response and end the handler. Steps, Checked, Stored, Bounty, Release
--                      and Staked are the theorems on them
--   Database           database/database.go over the tables of its migration: Write has the Put functions,
--                      Read the queries; Keys is what always holds of the tables, Shown what is read of
--                      what was put. Relay/Reported and Relay/Bound are the handlers over it
--   Reporter           reporter/reporter.go, the handlers
--   Rpbs, Rpbs/Power   the complex numbers of rpbs/types.go, with which a square root is taken
--   Rpbs/Point         BytesToPoint; its local variable `zero` is the same pointer as `a`, and one value
--   Rpbs/Signature     VerifySignature over the group of the curve; Rpbs/Decode is how a proof is decoded
--                      and Verify of rpbs/rpbs.go
--   Bls                bls/bls.go over the interface of blst; Bls/Signed is what VerifySignatureBytes accepts
--   Bulletin           bulletinboard/highestBid.go and mqtt.go; Messages is what a reader learns from them
--   Signing            signing/fastssz.go and signing/ssz.go over what fastssz makes of the chunks: Encoding
--                      has the SSZ encoding, Domains what a domain is, Messages what is signed. Relay/Network
--                      is NewEthNetworkDetails, Relay/Signed what the relay's signatures show
--   Tests              concrete servers, nodes and requests, and the theorems applied to them
--
-- Interfaces. `Redis` with `RedisLaws` is what the board and the registry know of the server. `Board`
-- with `BoardLaws` has the JSON functions, which decode what they encode, and the value of a signed
-- bid. `Curve` with `CurveLaws` is the group that RPBS proofs are over, `Blst` with `BlstLaws` the
-- library under bls/, `Hashing` with `HashingLaws` what fastssz makes of chunks. `Nodes` is what the
-- beacon nodes answer to the client of all of them, `Http` what one node sends over HTTP. `Outside` is
-- what the handlers call: SSZ, ECDSA, JSON and HTTP; the group, blst and the hashing are fields of it.
--
-- The database. Each statement of a `Database` meets the next of its outcomes: it is served, it is
-- refused and changes nothing, or the connection breaks after so many rows. `Postgres` is what is its
-- own: the order of an ORDER BY among equal slots, on which no theorem rests, and how a text is read
-- as an INTEGER. `database/sql` takes `uint64` arguments below 2 ^ 63 only.
--
-- Bounds and fuel. `uint64` and `int64` arithmetic has its wrap-around written out. The loop of
-- `chunkSlice` runs on fuel, and the length of the list is enough; for the loop of ComplexExponent
-- the exponent is enough. The two searches of BytesToPoint run on fuel; that of the first has to reach
-- a number with a square, and the second ends at once. The loops of PublishBlock and
-- waitSynced are recursive on the events and the rounds of probes that come; a run that is still
-- waiting is a value of its own.
--
-- Not modelled: time that passes in Redis, so that entries never expire; cmd/; the connection and the
-- migrations of database/; the connection of the MQTT client. The texts of Redis errors are not followed.
-- Requests are handled one after the other. Messages are complete: a bid without a value or a header,
-- and an entry null in a list of a node, are not considered.
pub mod Base
pub mod Text
pub mod Redis
pub mod Registry
pub mod Reporter
pub mod Rpbs
pub mod Signing
pub mod Bulletin
pub mod Bls
pub mod Relay
pub mod Memory
pub mod Bids
pub mod Map
pub mod Beacon
pub mod Database
pub mod Tests
