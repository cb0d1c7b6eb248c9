-- ===== src/Lib.antt =====
-- WiVRn streams what a PC renders to a VR headset. The server (server/) encodes the frames and cuts
-- them into shards; the client (client/), on the headset, puts the shards together and decodes
-- them. Between them go packets of common/wivrn_packets.h, serialised by
-- common/wivrn_serialization.h and carried by the sockets of common/wivrn_sockets.h and .cpp.
--
-- The files, by the code they model:
-- - Common and below: Boolean tests on native numbers, lists measured by them, exceptions as a
--   result type, and differences of times. They model no code.
-- - Serial (common/wivrn_serialization.h): Types are the types that serialization_traits covers,
--   with their values; Packet is serialization_packet, Cursor is deserialization_packet, Encoding
--   has serialize, deserialize and a reference encoding `encode`; Hash is the type hash.
-- - Protocol: Base, FromHeadset and ToHeadset are the packets of common/wivrn_packets.h;
--   TypedSocket is typed_socket of common/wivrn_sockets.h; Exchange is about both ends, OverTcp
--   about both ends with Socket between them.
-- - Socket: TCP::receive_raw and TCP::send_raw of common/wivrn_sockets.cpp.
-- - Video: Shard is video_stream_data_shard; Encoder is server/encoder/video_encoder.cpp;
--   Accumulator is client/decoder/shard_accumulator.cpp; Frame goes from the one to the other;
--   Aliasing is about the width of frame_diff.
-- - Connection: server/driver/wivrn_connection.cpp and .h, the server's side of the handshake;
--   Polling is poll and poll_control.
-- - Queue: common/utils/sync_queue.h.
-- - History: server/driver/history.h.
-- - Decoding: Nal and Android are client/decoder/android/android_decoder.cpp, Ffmpeg is
--   client/decoder/ffmpeg/ffmpeg_decoder.cpp; Nal/Filtered, Android/Buffers, Android/Pictures,
--   Ffmpeg/Answers and Ffmpeg/Images are about them.
-- - App: the main loop of client/application.cpp; WifiLock is client/wifi_lock.cpp; Focus and
--   Lifecycle/Turns are about the calls that scenes and OpenXR get.
-- - Discovery: the cache of client/wivrn_discover.cpp; Search is its thread; Servers is the list of
--   servers of client/scenes/lobby.cpp; Cache/Known, Search/Addresses and Servers/Announced are
--   about them.
-- - Tracking: client/scenes/stream_tracking.cpp; Flags goes on to the server's Poses, Samples and
--   Rate are about what a turn sends and the pace.
-- - Feedback: on_feedback and reset_encoders of server/driver/wivrn_comp_target.cpp.
-- - Pacer: server/driver/wivrn_pacer.cpp and .h; Waits is about its samples, Pacing about predict.
-- - Session: the headset's side of the handshake, client/wivrn_client.cpp and .h.
-- - RingBuffer: common/utils/ring_buffer.h; Window is about the items between its indices, Fifo
--   about its two threads.
-- - Scene: the decoded frames that client/scenes/stream.cpp keeps and chooses from; Merge and
--   Shared are about the intersection of the sets, Synchronised about common_frame.
-- - Swapchain: pseudo_swapchain, comp_wivrn_acquire, comp_wivrn_present and
--   comp_wivrn_present_thread of server/driver/wivrn_comp_target.h and .cpp; Bits is about an
--   image's status, Held and Holding about the images that a thread has not released, Alert and
--   Waking about its waits, Choice about its loop over the images.
-- - ClockOffset: server/driver/clock_offset.cpp and .h; Aged and Buffer are about the kept samples,
--   Latency about dropped ones, Queries about request_sample.
-- - EncoderSettings: server/encoder/encoder_settings.cpp; Regions is about the parts of the image.
-- - ServerSession: server/driver/wivrn_session.cpp and .h; Thread is the loop of its network thread
--   over the connection's poll, Offsets is about the clock offset that the devices are given,
--   Maximum about max_accumulator.
-- - Controller: the inputs of server/driver/wivrn_controller.cpp.
-- - Poses: server/driver/pose_list.cpp and hand_joints_list.cpp; Tracked is about the samples that
--   pose_list adds to its History.
-- A module Runs of a component holds concrete runs.
--
-- How the parts interact: Encoder hands shards (Video.Shard) to the connection, which sends them as
-- packets (Protocol) through serialisation (Serial) on a socket (Socket); the headset's Accumulator
-- collects them, and its Feedback comes back to on_feedback, which asks the Encoder for an IDR
-- frame. The Accumulator hands the bytes of a frame to a decoder (Decoding), which hands its
-- picture to the Scene. The Scene keeps the decoded frames and chooses the one to show. On the
-- server, the compositor hands images to the encoder threads through the Swapchain. ServerSession
-- polls the Connection and hands the headset's packets to the Controller and to Poses, which keep
-- their samples in a History, with the offset of ClockOffset.
--
-- On the headset, Discovery finds the server that the Session then shakes hands with; App calls the
-- scenes and counts their requests for the WiFi locks; Tracking sends the poses that Poses reads.
--
-- State and bounds. Records stand for the classes, with their members; an operation takes the state
-- and returns the new one, with the calls that it makes of other parts as values (Effect, Progress,
-- Result). Bytes and counters are native numbers, with the wrap of uint16_t and uint64_t written
-- out where the source's arithmetic can wrap, and with the sign or the width where the source
-- converts (an encoder thread's status_bit, a time to live, the times of History). The environment
-- is an argument: the pieces in which recv hands over bytes (choices), the answers of sendmsg, what
-- each poll finds (Turn), the order and the times in which shards arrive. Fuel: push_shard calls
-- itself at most once, so 2 is enough; the loop of SendData takes a byte at least in every turn, so
-- the length of the data is enough; feed_unsigned writes at most 20 digits, the length of 2^64. A
-- turn of filter_csd takes a byte at least, or ends outside of the packet, so its length and one
-- are enough; frame_completed takes an answer of FFmpeg in every turn, and any fuel above their
-- number gives the same; a turn of tracking has two samples at most, so 3 is enough, and more gives
-- the same.
--
-- Interleavings. RingBuffer and Swapchain have the program counters of the threads in their state,
-- a step for each access to what they share, and sequentially consistent atomics; ServerSession's
-- max_accumulator has what other threads do as an argument. Elsewhere locks are taken for granted,
-- and operations are atomic.
--
-- Not modelled: Vulkan, OpenXR, MediaCodec and FFmpeg themselves, the renderer and the widgets, the
-- encoder backends, audio, the sockets and the parser of mDNS, the Monado drivers of the head and
-- the compositor, the Wireshark dissector and the libraries under external/. They are calls of
-- third-party code. Floating-point arithmetic is a parameter where it matters (History, Pacer,
-- ClockOffset, EncoderSettings, Poses, Tracking) and is left out otherwise.
pub mod Common
pub mod Serial
pub mod Socket
pub mod Protocol
pub mod Video
pub mod Connection
pub mod Queue
pub mod History
pub mod Feedback
pub mod Pacer
pub mod Session
pub mod RingBuffer
pub mod Scene
pub mod Swapchain
pub mod ClockOffset
pub mod EncoderSettings
pub mod ServerSession
pub mod Controller
pub mod Poses
pub mod Decoding
pub mod App
pub mod Discovery
pub mod Tracking
