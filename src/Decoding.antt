-- ===== src/Decoding.antt =====
-- The decoders of the headset, client/decoder/android/android_decoder.cpp and
-- client/decoder/ffmpeg/ffmpeg_decoder.cpp. The codecs are third-party code, and are seen by the
-- calls that they get and by what they answer.

pub mod Nal
pub mod Android
pub mod Ffmpeg
mod Runs
