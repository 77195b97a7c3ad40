-- ===== src/Lib.antt =====
-- BedrockDebugProxy is a debugging proxy between a Minecraft Bedrock client and a server; it records
-- what passes in a capture, a directory that can be verified later, and derives readable copies of the
-- resource packs. This library models the capture recorder and its verifier, the packet observer that
-- feeds the recorder, the forwarding loop, the configuration and the resource pack cache of the proxy,
-- and the decryption of resource packs, from the Go source.
--
-- Parts, with the paths from the repository's root:
--   Base             lists, numbers and tests over the native numbers.
--   Capture.Schema   internal/capture/schema.go, and Capture.Direction and Capture.Severity its
--                    constants.
--   Capture.Library  Go's standard library as a parameter: encoding/json, crypto/sha256, encoding/hex,
--                    path/filepath, time.
--   Capture.Disk     the files of a capture, and writeAll.
--   Capture.Recorder internal/capture/recorder.go: the state of a Recorder with its counters on uint64
--                    (Recorder), content-addressed blobs (Blob), appending an event (Append), the bounded
--                    queue of enqueue (Queue), the writer goroutine (Writer), Close and the manifest file
--                    (Close), New (New). Answers of the operating system are arguments. The other files
--                    below it hold lemmas.
--   Capture.Session  the goroutines that share a recorder: Step is one critical section, or one step of
--                    enqueue, of the writer or of Close, and Reach any sequence of them. A round of the
--                    writer receives its job in the same step. Session.Stream says what the lists of
--                    accepted, persisted and lost events have to do with the file and the counts.
--   Capture.Verify   internal/capture/verify.go: ReadManifest, ScanEvents, validateBlobRef and verifyBlob
--                    (Verify), VerifyWithProgress (Visit).
--   Proxy.PackCache  internal/proxy/resource_pack_url.go: Load, Store, Packs, Merge (Merge), Observe with
--                    download and WaitForOffer (Observe).
--   Proxy.Transfer   internal/proxy/transfer.go: transferForProxyAddress.
--   Proxy.Effects    internal/proxy/proxy.go: what the connections and the recorder answer in a round of
--                    `forward`, and its effects.
--   Proxy.Forward    internal/proxy/proxy.go: the loop `forward` with its ends, as a function of these
--                    answers, to a list of effects. Forward.Watch and Forward.Due follow the effects;
--                    Phases, Packet, Round and Sending go through a round.
--   Proxy.Config     internal/proxy/config.go: normalize and validateAddress.
--   Bedrock.Failures internal/bedrock/failure.go: the failure latch.
--   Bedrock.Observer internal/bedrock/observer.go: the flow table, classify and the record of a packet.
--   ResourcePack     internal/resourcepack/decrypt.go, in the order of DecryptArchive: paths (Paths), the
--                    index of the entries and the pack's manifest (Index), CFB8 (Cfb8), the header of a
--                    contents manifest (Header), its decryption (Manifest), its entries (Declare), an
--                    entry's bytes and the budget (Entry), the derived archive (Emit), and the whole
--                    (Archive). Errors are values of Outcome.
-- Samples files hold tests and concrete instances.
--
-- Mutexes make a critical section one step; a wait is a test that a step needs (Wait). The panic of
-- closing a closed channel is `none`. The deep copies that the recorder makes of events are values
-- here. Steps assume that fewer than 2 ^ 64 numbers are assigned, that json.Marshal refuses an event
-- for its payload alone, and that no two contents of different length have one digest. `writeAll` runs
-- on fuel, the length of its bytes, which is enough, as each round writes a byte or returns.
--
-- In ResourcePack, crypto/aes, archive/zip, encoding/json, path and unicode are parameters. A reader is
-- its bytes and whether an error follows them. The map of the archive's files is the list of them in
-- their order, which the iterations that sort afterwards do not depend on.
--
-- In Proxy.Forward a round is a function of its answers: durations and the live report are left out, and
-- the fields of the records that a round makes are left to the effects' names. The test of an expected
-- shutdown is a parameter, as is the decoding of packets.
--
-- Not modelled: the decoding of packets, the sessions of internal/proxy around its forwarding loops, the
-- live report, the network wrappers of internal/bedrock, internal/packetview, internal/analysis,
-- internal/artifacts, internal/authcache, internal/experience, internal/golem, internal/golemnet, internal/viewer,
-- internal/capturearchive and cmd, which build on the modelled parts or are mostly input and output,
-- and the copies of other projects in third_party.
pub mod Base
pub mod Capture
pub mod Bedrock
pub mod Proxy
pub mod ResourcePack
