-- ===== src/Lib.antt =====
-- The C programs of mltk, the toolkit that builds the bwLehrpool client system: what is
-- modelled here of them, and what is proved.
--
-- A client runs virtual machines for its users. Two programs hand the user's password over to
-- the guest. On the host, core/modules/run-virt/pw_daemon.c keeps it encrypted; the scripts
-- around it write the daemon's answer to a query, behind the host's address, into the first
-- line of shares.dat, which the guest sees. In the guest,
-- core/modules/run-virt/winres/src/winres.c reads that file, sends the first key to the daemon
-- over UDP, decrypts the reply, mounts the user's network drives and starts scripts with the
-- user and the password as parameters. The other programs stand alone: the patchers of VMware's
-- binary, core/modules/vmware16/usb-patcher.c, core/modules/vmware17/usb-patcher.c and
-- core/modules/vmware25H2/usb-patcher.c, the daemon for brightness keys,
-- core/modules/slx-brightness/src/main.c, the two programs that tell how long a user is away,
-- core/modules/idleaction/xprintidle.c and core/modules/idleaction/xprintlocktime.c, and the
-- setuid helper core/modules/run-virt/fwtool/main.c.
--
-- Common: native numbers, lists, integers, bytes and texts, with what the programs use of the C
-- library. A text is the list of its bytes without the final NUL.
-- PwDaemon: Keys (keygen, xorString, bin2hex, setup_vars), Serve (what the child for a client,
-- the UDP listener and mode_query do with what they read), Udp (init_udp), Daemon (mode_daemon
-- and sig_handler: its start as a function of what the kernel answers, its loop as a step per
-- event, and the relation Reaches of all sequences of events), Main (main, connect_local,
-- mode_pw).
-- Winres: Secret (getbin, hex2bin, xorString, the check of a reply), Query
-- (queryPasswordDaemon, udpReceived), Token (getToken), ShareFile (readShareFile,
-- uncReplaceFqdnByIp), Mount (mount, mountNetworkShare), Shares (mountNetworkShares), Quote
-- (escapeShellArg, and the parameters that launchRunscript builds; Quote/Argv is an independent
-- description of how a Windows program takes its parameters apart), Scripts (launchRunscript),
-- Folders (Patch: patchRegPath, Targets: patchUserPaths, Shortcut: postSuccessfulMount), Pump
-- (setupNetworkDrives, remapViaSharedFolder and the loop of messages in WinMain, with the
-- relation Reaches of all its sequences of timers and datagrams, which counts the calls of the
-- timers), Resolution (the settings that setResolution reads; Layout: isResolutionFine, Methods:
-- setResModern, setResWinMulti, setResWinLegacy, setResVMware, Timer: setResolution and
-- tmrResolution), Start (Paths: loadPath and the paths of loadPaths, Settings: its settings, and
-- WinMain up to the loop of messages).
-- Session: the two sides together, from the daemon's set-up to the password in the guest; Whole
-- takes the guest from the start of the program on.
-- UsbPatcher, Brightness, IdleAction, FwTool: the programs that stand alone.
-- Examples: every theorem applied at concrete inputs.
--
-- Numbers are unbounded, with the casts of the source written out and with what atoi and strtol
-- give for a number that is too large; the numbers that sscanf reads in the names of scripts are
-- not bounded, and an overflow of an int, which is undefined in C, is not followed. What
-- uninitialised memory holds, the results of system calls, the random numbers and name
-- resolution are parameters. Reads, writes and binds are sequences of results in the order of
-- the calls. Fuel: the loop of init_udp has 101 rounds, as many as it makes; the loop over the
-- lines of shares.dat has one more than the file has bytes, as every line takes one; in
-- escapeShellArg one more than the argument has characters is enough where the loop ends, and
-- the fuel stays a parameter, since the loop need not end. The loop over the resolutions has the
-- length of their text, of which every round takes a character. The search for input devices has
-- fuel for the numbers below the last device and ten more.
--
-- Not modelled: what in winres.c only calls Windows (sound, the text at shutdown, the settings
-- for remote access, COM for the shortcuts), and in slxWindowProc the timers that a change of
-- devices starts; core/modules/rdns; the scripts.
-- core/modules/fspanel and the two directories parse-edid are copies of other projects. Memory
-- is not exhausted, and printed messages are left out where no caller reads them.
pub mod Common
pub mod PwDaemon
pub mod Winres
pub mod Session
pub mod UsbPatcher
pub mod Brightness
pub mod FwTool
pub mod Examples
pub mod IdleAction
