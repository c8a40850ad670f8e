-- ===== src/Rtsp/Sdp.antt =====
-- crates/vscreen-rtsp/src/sdp.rs: the session description of a stream. An IP address is its text
-- and whether it is of version 6.
use vscreen.Base.Text.{Text, codes, show, text_eq}
use vscreen.Base.{Bool, [], if◌then◌else◌, ℕ, ◌++◌, ◌∷◌, nat_eq, string_eq}
use vscreen.Core.Config.{VideoCodec, vp9, h264}
use vscreen.Rtsp.Quality.{QualityTier, bitrate_bps}
use vscreen.Rtsp.Session.{MediaConfig}

pub record IpAddr : Type 0 where
  pub text : Text
  pub is_ipv6 : Bool

pub record SdpParams : Type 0 where
  pub instance_id : Text
  pub server_ip : IpAddr
  pub session_version : ℕ
  pub tier : QualityTier
  pub ptime_ms : ℕ
  pub media : MediaConfig
  pub video_codec : VideoCodec
  pub video_width : ℕ
  pub video_height : ℕ
  pub framerate : ℕ

-- `push_str` of a line.
abbrev line : Text → Text
line s = s ++ (13 ∷ 10 ∷ [])

abbrev codec_lines : SdpParams → VideoCodec → Text
codec_lines p vp9 =
    line (codes "a=rtpmap:96 VP9/90000")
    ++ line (codes "a=framesize:96 " ++ (show p.video_width ++ (b'-' ∷ show p.video_height)))
codec_lines p h264 =
    line (codes "a=rtpmap:96 H264/90000")
    ++ line (codes "a=fmtp:96 profile-level-id=42c01f;packetization-mode=1")

unfoldable pub video_section : SdpParams → Text
video_section p =
    line (codes "m=video 0 RTP/AVP 96")
    ++ (codec_lines p p.video_codec
        ++ (line (codes "a=framerate:" ++ show p.framerate) ++ line (codes "a=control:trackID=0")))

unfoldable pub audio_section : SdpParams → Text
audio_section p =
    line (codes "m=audio 0 RTP/AVP 111")
    ++ (line (codes "a=rtpmap:111 opus/48000/2")
        ++ (line (
              codes "a=fmtp:111 minptime=10;useinbandfec=1;maxaveragebitrate="
              ++ show (bitrate_bps p.tier))
            ++ (line (codes "a=ptime:" ++ show p.ptime_ms) ++ line (codes "a=control:trackID=1"))))

unfoldable pub generate_sdp : SdpParams → Text
unfolding video_section audio_section
generate_sdp p =
    let ip = p.server_ip.text in
    let ip_ver = if p.server_ip.is_ipv6 then codes "IP6" else codes "IP4" in
    line (codes "v=0")
    ++ (line (
          codes "o=vscreen "
          ++ (show p.session_version ++ (codes " 1 IN " ++ (ip_ver ++ (32 ∷ ip)))))
        ++ (line (codes "s=vscreen stream (" ++ (p.instance_id ++ codes ")"))
            ++ (line (codes "c=IN " ++ (ip_ver ++ (32 ∷ ip)))
                ++ (line (codes "t=0 0")
                    ++ ((if p.media.has_video then video_section p else [])
                        ++ (if p.media.has_audio then audio_section p else []))))))
