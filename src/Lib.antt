-- ===== src/Lib.antt =====
-- The two programs of the repository: md380_emu_ambed, a daemon that offers the vocoder of a radio's
-- firmware over TCP in the packets of an AMBE-3000F chip, and mmdvm_sip, which listens to a DMR
-- repeater, takes the voice out of its bursts and has the daemon decode it to samples.
--
-- How the parts interact. The repeater sends UDP datagrams. Packet.parse types them; the listener
-- takes the voice packets, VoiceBurst cuts the 33 bytes of a burst into three frames of four rows of
-- bits, Fec corrects two rows of each with the Golay decoder and descrambles the second, and the
-- listener packs the 49 voice bits and hands them to the codec client. The client writes a Channel
-- packet; the daemon's connection handler reads it, sends a request to the codec worker, which owns
-- the one codec, and answers with a Speech packet. The samples go to the PCM writer, one file a call.
-- The echo command records the packets of a call and sends them back.
--
-- The daemon, md380_emu_ambed/src:
--   Ambed/Protocol       protocol.rs: Packet, build, to_bytes, read_packet with its resynchronisation,
--                        build_channel_from_amb8, amb8_from_channel
--   Ambed/Codec          codec.rs: Md380Codec over the firmware's RAM: encode, decode, their buffers
--   Ambed/Firmware       firmware.rs: Firmware::load and its drop, MappedRegion
--   Ambed/Command        command/encode.rs and decode.rs, between the bytes of their files;
--                        parse_optional of command/serve.rs
--   Ambed/Server         server.rs: spawn_codec_worker (Server/CodecWorker), handle_packet,
--                        handle_connection; Server/Session tells the replies without a connection,
--                        and Server/Accept has run_server
-- The listener, mmdvm_sip/src:
--   Sip/Fec/Golay        fec/golay.rs; the table of fec/golay_matrix.rs is in Golay/Matrix
--   Sip/Fec/Ambe         fec/ambe.rs: demodulate, ecc_data, strip_fec
--   Sip/Dmr/Packet       dmr/packet.rs, dmr_data.rs, dmr_config.rs, dmr_gps.rs, dmr_alias.rs
--   Sip/Dmr/VoiceBurst   dmr/voice_burst.rs: the tables, deinterleave, extract_voice_frames
--   Sip/AmbeClient       ambe_codec_client.rs: its own packet reader and sender, handshake, decode
--   Sip/Listener         dmr_listener.rs: the packing of the voice bits and a burst through the codec;
--                        its loop over events is in Listener/Run
--   Sip/PcmWriter        pcm_writer.rs: the open calls, the write of a burst, the calendar
--   Sip/Echo             command/echo_dmr.rs: the loop over its events, and the replay
-- The SIP account, mmdvm_sip/src:
--   Sip/Error            error.rs
--   Sip/AuthParams       registration.rs: parse_params
--   Sip/Digest           digest_auth.rs: DigestAlgorithm::parse, compute, to_header_value
--   Sip/Transport        udp_transport.rs: send and recv
--   Sip/Registration     registration.rs: build_register, perform, handle_challenge, recv_response,
--                        parse_challenge, extract_expires; the fields of config.rs
--   Sip/SipClient        sip_client.rs: run_register_loop
-- Each of these files has the definitions; the modules below it have the proofs, and its module Tests
-- runs the code and applies the theorems at concrete inputs. Base has what they share.
--
-- State and errors. A function that changes an object takes it as an argument and returns it changed;
-- the RAM of the firmware is a function from addresses. Fallible code returns `Result`, whose third
-- constructor, `stuck`, is no value of the program but a loop that ran out of fuel.
--
-- Numbers. Machine integers are natural numbers, with the wrap-around of a cast or a shift written
-- out as a remainder; a signed sample is its 16 bits. Bytes are numbers, and where a proof needs them
-- below 256 it says so.
--
-- Parameters. A connection is the record of Base/Io, what tokio's AsyncReadExt and AsyncWriteExt
-- offer; Base/Memory is an instance. The firmware's two vocoder functions work on the RAM and are
-- arguments. The PCM writer takes a file system and the times, the listener's loop its events and the
-- connection that a failed decode leaves, the echo takes the events of its select loop, and the answer
-- of the socket to each datagram. The SIP account takes the messages of the crate rsip as the record
-- of Sip/Transport, MD5 and the hexadecimal encoding as that of Sip/Digest, the random bytes, and its
-- socket as what arrives on it and what it answers. The server's start takes the files at the paths
-- and the answers to the binds and the removal. The loader takes the two images and the answers of the
-- kernel; what mmap, mprotect and munmap do to the address space is as Linux has it, on whole pages of
-- 4096 bytes. A text is the list of its code points, and Base/Text has what the standard library does
-- with it.
--
-- Fuel. `read_packet` and `resync` take a byte for each unit of fuel that they use, so fuel above the
-- number of bytes to come is enough. `handle_connection` takes one unit for each packet, and each
-- packet is four bytes at least. The listener's loop gives each burst fuel above the bytes to come.
-- `parse_params` takes a round for each character at most.
--
-- Not modelled: sockets and TCP connect; log lines; the build script, and the stubs of codec.rs on
-- other processors than ARM; the files of the offline commands; the resolution of host names; command
-- lines, the reading of the configuration file, and start-up.
pub mod Base
pub mod Ambed
pub mod Sip
